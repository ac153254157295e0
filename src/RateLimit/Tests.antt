-- ===== src/RateLimit/Tests.antt =====
-- Runs of internal/ratelimit with a bucket that counts its tokens down and never fills up.
use rest_trans.Prelude.{ℕ, zero, suc, ◌≡◌, refl, Bool, true, false, none, [], ◌∷◌, Text, codes}
use rest_trans.Prelude.Int.{pos, pos_part}
use rest_trans.RateLimit.{TokenBucket, new_limiter, drop_idle}
use rest_trans.RateLimit.Isolation.{request, tick, answers, alone, limiter-refines}

abbrev take_one : ℕ → ℕ → ℕ × Bool
take_one zero now = (0, false)
take_one (suc n) now = (n, true)

abbrev counting : TokenBucket ℕ
counting = record { fresh = λ rate burst. pos_part burst; take_token = take_one }

abbrev ann : Text
ann = codes "10.0.0.1"

abbrev bob : Text
bob = codes "10.0.0.2"

spent :
    answers counting ann (new_limiter (codes "1") (pos 1)) (
      request ann 1
      ∷ request bob 2
      ∷ request ann 3
      ∷ tick 700000000000
      ∷ request ann 700000000001
      ∷ [])
    ≡ true ∷ false ∷ true ∷ []
unfolding answers drop_idle
spent = refl

limiter-refines_example :
    answers counting ann (new_limiter (codes "1") (pos 1)) (request bob 2 ∷ request ann 3 ∷ [])
    ≡ alone counting (codes "1") (pos 1) ann none (request bob 2 ∷ request ann 3 ∷ [])
limiter-refines_example =
    limiter-refines counting (codes "1") (pos 1) ann (request bob 2 ∷ request ann 3 ∷ [])
