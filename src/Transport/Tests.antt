-- ===== src/Transport/Tests.antt =====
-- Runs of the retries, and their theorems at concrete inputs.
use gorp.Prelude.{
  if◌then◌else◌, ◌&&◌, ℕ, zero, suc, ◌≤◌, ◌≡◌, refl, true, false, [], ◌∷◌, ◌||◌, not, String,
  one_of,
}
use gorp.Transport.{
  Answer, Exchange, responded, sent, waited, round_trip, attempt_from, delay_of, grow,
  retryable_response,
}
use gorp.Transport.Retry.{IsAnswer, round_trip-IsAnswer, round_trip-sends, sends}

-- One bad gateway, then a success
abbrev answers : ℕ → Answer
answers zero = responded 502
answers (suc n) = responded 200

abbrev exchange : String → Exchange
exchange method = record {
  method = method;
  has_body = false;
  has_get_body = false;
  cancelled_first = false;
  base = answers;
  body_again = λ i. true;
  cancelled_after = λ i. false;
  cancelled_waiting = λ i. false;
}

retried_once :
    round_trip (exchange "GET") 100 3 ≡ (sent 0 ∷ waited 100 ∷ sent 1 ∷ [], responded 200)
unfolding round_trip attempt_from delay_of grow retryable_response
retried_once = refl

round_trip-IsAnswer_example : IsAnswer (exchange "GET") 0 4 (round_trip (exchange "GET") 100 3)
round_trip-IsAnswer_example =
    round_trip-IsAnswer (exchange "GET") 100 3 refl refl (refl, λ i. refl, λ i. refl, λ i. refl)

round_trip-sends_example :
    sends (round_trip (exchange "POST") 100 3).0
    ≤ (if one_of "POST" ("GET" ∷ "HEAD" ∷ []) && (not false || false) then 4 else 1)
round_trip-sends_example = round_trip-sends (exchange "POST") 100 3
