-- ===== src/Http/Health/Honest.antt =====
-- What the answers of GET /health/ready rest on, with the cache of the queue's state.
use go_challenge_fc.Base.{
  ℕ, ◌-◌, ◌*◌, ◌≡◌, refl, ◌⊎◌, inl, inr, true, false, List, [], ◌∷◌, Option, none, some, String,
  ltb, Bool-cases, Option-cases, arith,
}
use go_challenge_fc.Base.Time.{second}
use go_challenge_fc.Http.Health.{
  HealthHandler, new_health_handler, Readiness, database_unavailable, sqs_unavailable, up,
  check_sqs, is_stale, sqs_answer, ready_with_database, ready,
}

-- A request: its time, the time when ListQueues has returned or would have, and the errors that
-- SELECT 1 and ListQueues have or would have.
pub record Visit : Type 0 where
  pub now : ℕ
  pub ended : ℕ
  pub database : Option String
  pub ping : Option String

-- The handler after requests, the latest one first.
unfoldable pub readies : List Visit → HealthHandler → HealthHandler
unfolding ready
readies [] h = h
readies (v ∷ vs) h = (ready v.now v.ended v.database v.ping (readies vs h)).1

-- One of the requests had ListQueues return at this time with this error.
abbrev pub Asked : ℕ → Option String → List Visit → Type 0
Asked t e [] = ⊥
Asked t e (v ∷ vs) = ((v.ended ≡ t) × (v.ping ≡ e)) ⊎ Asked t e vs

-- The state of the queue is that of the request, or that of an earlier one whose ListQueues
-- returned at most 15 seconds before.
abbrev pub Origin : List Visit → ℕ → Option String → Option String → Type 0
Origin vs now ping e = (ping ≡ e) ⊎ ((t : ℕ) × Asked t e vs × (ltb (15 * second) (now - t) ≡ false))

abbrev pub Honest : List Visit → ℕ → Option String → Option String → Readiness → Type 0
Honest vs now database ping (database_unavailable e) = database ≡ some e
Honest vs now database ping (sqs_unavailable e) = (database ≡ none) × Origin vs now ping (some e)
Honest vs now database ping (up has_sqs) =
    (database ≡ none) × (has_sqs ≡ true) × Origin vs now ping none

record IsKept (vs : List Visit) (h : HealthHandler) : Type 0 where
  has_sqs : h.has_sqs ≡ true
  ttl : h.sqs_cache_ttl ≡ 15 * second
  asked : (t : ℕ) → h.last_sqs_check ≡ some t → Asked t h.last_sqs_err vs

module _ (vs : List Visit) (now ended : ℕ) (ping : Option String) (h : HealthHandler)
    (k : IsKept vs h) where
  check_sqs-Origin : Origin vs now ping (check_sqs now ended ping h).last_sqs_err
  unfolding check_sqs
  check_sqs-Origin = elim (Option-cases h.last_sqs_check) [
    | inl unchecked ↦ rw unchecked (inl refl)
    | inr (t, checked) ↦ elim (Bool-cases (ltb h.sqs_cache_ttl (now - t))) [
      | inl old ↦ rw (checked, old) (inl refl)
      | inr recent ↦ rw (checked, recent) (inr (t, k.asked t checked, (rw k.ttl at recent)))
    ]
  ]

  check_sqs-IsKept :
      (database : Option String)
      → IsKept
          (record { now = now; ended = ended; database = database; ping = ping } ∷ vs)
          (check_sqs now ended ping h)
  unfolding check_sqs
  check_sqs-IsKept database = elim (Bool-cases (is_stale now h.last_sqs_check h.sqs_cache_ttl)) [
    | inl stale ↦
        rw stale (record { has_sqs = k.has_sqs; ttl = k.ttl; asked = λ t e. inl (ground arith) })
    | inr fresh ↦
        rw fresh (record { has_sqs = k.has_sqs; ttl = k.ttl; asked = λ t e. inr (k.asked t e) })
  ]

  with_queue :
      let checked = check_sqs now ended ping h in
      ready now ended none ping h ≡ (sqs_answer checked.last_sqs_err, checked)
  unfolding ready ready_with_database
  with_queue = simp k.has_sqs

  ready-IsKept :
      (database : Option String)
      → IsKept
          (record { now = now; ended = ended; database = database; ping = ping } ∷ vs)
          (ready now ended database ping h).1
  unfolding ready ready_with_database
  ready-IsKept none = rw with_queue (check_sqs-IsKept none)
  ready-IsKept (some e) = record {
    has_sqs = k.has_sqs;
    ttl = k.ttl;
    asked = λ t c. inr (k.asked t c);
  }

  sqs_answer-Honest :
      (e : Option String) → Origin vs now ping e → Honest vs now none ping (sqs_answer e)
  sqs_answer-Honest none o = (refl, refl, o)
  sqs_answer-Honest (some e) o = (refl, o)

  kept-Honest :
      (database : Option String) → Honest vs now database ping (ready now ended database ping h).0
  unfolding ready ready_with_database
  kept-Honest none = rw with_queue (sqs_answer-Honest _ check_sqs-Origin)
  kept-Honest (some e) = refl

readies-IsKept : (vs : List Visit) → IsKept vs (readies vs (new_health_handler true))
unfolding readies new_health_handler
readies-IsKept [] = record { has_sqs = refl; ttl = refl; asked = λ t e. cc }
readies-IsKept (v ∷ vs) = ready-IsKept vs v.now v.ended v.ping _ (readies-IsKept vs) v.database

-- After any requests, the answer of the health handler with a queue names the error of the
-- database, if there is one, and otherwise is the state of the queue at this request, or at an
-- earlier one whose check of the queue ended at most 15 seconds before.
pub ready-Honest :
    (vs : List Visit) (now ended : ℕ) (database ping : Option String)
    → Honest vs now database ping
        (ready now ended database ping (readies vs (new_health_handler true))).0
ready-Honest vs now ended database ping =
    kept-Honest vs now ended ping _ (readies-IsKept vs) database
