-- ===== src/Workflows/Approval/Tests.antt =====
-- Runs of the broker of approval.ts.
use browser_cortex.Common.{
  ◌≡◌, ◌≢◌, ◌↔◌, refl, [], ◌∷◌, ◌++◌, Text, nat, units, true, false, bounded_positive, ◌===◌,
}
use browser_cortex.Common.Map
use browser_cortex.Workflows.Approval.{
  Binding, Broker, done, failed, expired, request_begin, request_finish, consume, consume_begin,
  consume_finish,
}
use browser_cortex.Workflows.Approval.Race.{Consumable, overlap, overlap_consumes_twice}
use browser_cortex.Workflows.Approval.Sequential.{consume_iff, consume_once}

abbrev digest : Binding → Text
digest binding = binding.run_id ++ binding.step_id

abbrev sends : Binding
sends = record {
  run_id = units "r";
  workflow_id = units "w";
  step_id = units "send";
  scope = units "mail";
  plan_fingerprint = units "p";
  arguments_fingerprint = units "a";
}

abbrev id : Text
id = units "h1"

abbrev reviewed : Broker
reviewed =
    (id, record { binding = sends; expires_at = 1100; approved = true; consumed = false }) ∷ []

request_test :
    (request_finish id true (request_begin 300000 1000 (nat 100) id sends []).1).1 ≡ reviewed
unfolding request_begin request_finish Map.get bounded_positive Map.set ◌===◌
request_test = refl

consume_test : consume digest 1050 id sends reviewed ≡ (done tt, [])
unfolding consume consume_begin Map.get ◌===◌ consume_finish Map.delete
consume_test = refl

expired_test : consume digest 1100 id sends reviewed ≡ (failed expired, [])
unfolding consume consume_begin Map.get ◌===◌ Map.delete
expired_test = refl

consume_iff_example :
    (consume digest 1050 id sends reviewed ≡ (done tt, []))
    ↔ (Consumable digest id 1050 sends reviewed × ([] ≡ Map.delete id reviewed))
consume_iff_example = consume_iff digest 1050 id sends reviewed []

consume_once_example : consume digest 1060 id sends [] ≢ (done tt, [])
consume_once_example = consume_once digest 1050 1060 id sends sends reviewed [] [] consume_test

reviewed-Consumable : Consumable digest id 1050 sends reviewed
reviewed-Consumable = ((consume_iff digest 1050 id sends reviewed []).0 consume_test).0

overlap_consumes_twice_example :
    ((overlap digest id sends 1050 1050 reviewed).0 ≡ done tt)
    × ((overlap digest id sends 1050 1050 reviewed).1 ≡ done tt)
overlap_consumes_twice_example =
    overlap_consumes_twice digest id 1050 1050 sends reviewed reviewed-Consumable
      reviewed-Consumable
