-- ===== src/RegRouter/Tests.antt =====
-- Two banks of register memory, and callbacks of two priorities.
use qbox.Base.{ℕ, suc, ◌≡◌, refl, true, false, List, [], ◌∷◌, none, some}
use qbox.Base.Outcomes.{done}
use qbox.Tlm.{read, incomplete, ok, generic_error, Payload}
use qbox.Router.Target.{Target, claims, claims_bank}
use qbox.Router.Samples.{device}
use qbox.RegRouter.{
  RegRouter, lazy_initialize, initialize, insert, collect, claimants, decode, decode_address,
  b_transport, do_callbacks, fan_out,
}
use qbox.RegRouter.Decode.{Decodes, decode_address-Decodes}
use qbox.RegRouter.Callbacks.{Comes, b_transport-Comes}
use qbox.RegRouter.Peers.{Leads}
use qbox.RegRouter.Deliver.{logged, Delivers, do_callbacks-Delivers}

abbrev bank : Target
bank = device 0 0 4096 1

abbrev special : Target
special = device 1 256 16 0

abbrev watch : ℕ → ℕ → ℕ → Target
watch index address priority = record (device index address 64 priority) { is_callback = true }

abbrev built : RegRouter
built = record {
  mem_targets = bank ∷ special ∷ [];
  cb_targets = watch 4 240 2 ∷ watch 2 256 1 ∷ watch 3 256 1 ∷ [];
}

built_from :
    (lazy_initialize (bank ∷ watch 2 256 1 ∷ special ∷ watch 3 256 1 ∷ watch 4 240 2 ∷ [])).0
    ≡ built
unfolding initialize insert
built_from = refl

-- The callbacks of the lower number only.
chosen : claimants 260 built.cb_targets ≡ watch 2 256 1 ∷ watch 3 256 1 ∷ []
unfolding collect claims claims_bank
chosen = refl

decoded : decode_address built 260 ≡ done (some special)
unfolding decode_address decode claims claims_bank
decoded = refl

decode_address-Decodes_example : Decodes 260 built.mem_targets (decode_address built 260)
decode_address-Decodes_example = decode_address-Decodes built 260

abbrev fetch : Payload
fetch = record {
  command = read;
  address = 260;
  bytes = 0 ∷ [];
  data_length = 1;
  byte_enable = none;
  streaming_width = 1;
  dmi_allowed = true;
  response = incomplete;
  path = none;
  exclusive = none;
  underlying = none;
}

-- Each target counts the calls and answers with `ok`.
abbrev send : ℕ → Payload → ℕ → Payload × ℕ
send i p n = (record p { response = ok }, suc n)

do_callbacks-Delivers_example :
    (ts : List Target) × Leads 260 built.cb_targets ts
    × Delivers ts (do_callbacks (logged send) built fetch (0, [])).1.1
do_callbacks-Delivers_example = do_callbacks-Delivers send built fetch 0

-- Both callbacks of the lower number answer with `ok`, and then the first with an error.
both_called : (do_callbacks (logged send) built fetch (0, [])).1.1 ≡ (2, false) ∷ (3, false) ∷ []
unfolding do_callbacks fan_out collect claims claims_bank
both_called = refl

abbrev refuse : ℕ → Payload → ℕ → Payload × ℕ
refuse i p n = (record p { response = generic_error }, suc n)

first_called : (do_callbacks (logged refuse) built fetch (0, [])).1.1 ≡ (2, true) ∷ []
unfolding do_callbacks fan_out collect claims claims_bank
first_called = refl

b_transport-Comes_example : Comes send (λ i p s. refl) built 260 (b_transport send built fetch 0)
b_transport-Comes_example = b_transport-Comes send (λ i p s. refl) built fetch 0
