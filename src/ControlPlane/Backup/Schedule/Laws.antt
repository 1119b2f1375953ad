-- ===== src/ControlPlane/Backup/Schedule/Laws.antt =====
-- When the next backup runs.
use dnd_notes.Common.{
  ℕ, ◌+◌, ◌%◌, ◌≤◌, ◌<◌, String, Bool, true, false, ◌&&◌, ◌⊎◌, ◌≢◌, same_codes, same_codes_iff, ap,
  ◌∙◌, ◌≡◌, refl, Option, none, some, List, [], ◌∷◌, arith, codes, Bool-cases, Option-cases,
  is_some, inl, inr,
}
use dnd_notes.ControlPlane.Backup.Schedule.{
  fields, parse_int_cron_field, parse_int, day, slot, next_at, both, is_star, next_of_fields,
  next_scheduled_time,
}

-- The value that a field stands for: `*` for 0, and else what parseInt reads, at most `most`.
abbrev Denotes : (field : List ℕ) (most value : ℕ) → Type 0
Denotes field most value =
    (value ≤ most)
    × (((field ≡ b'*' ∷ []) × (value ≡ 0))
        ⊎ ((field ≢ b'*' ∷ []) × (parse_int field ≡ some (false, value))))

-- The minute in the first of five fields, the hour in the second, and `*` in the others.
abbrev pub Names : (expression : String) (minute hour : ℕ) → Type 0
Names expression minute hour =
    (minute_field : List ℕ) × (hour_field : List ℕ) × (fields [] (codes expression)
      ≡ minute_field ∷ hour_field ∷ (b'*' ∷ []) ∷ (b'*' ∷ []) ∷ (b'*' ∷ []) ∷ [])
    × Denotes minute_field 59 minute
    × Denotes hour_field 23 hour

parse_int_cron_field-Denotes :
    (field : List ℕ) (most n : ℕ)
    → parse_int_cron_field field 0 most ≡ some n
    → Denotes field most n
unfolding parse_int_cron_field
parse_int_cron_field-Denotes field most n e = elim (Bool-cases (same_codes field (b'*' ∷ []))) [
  | inl star ↦
      let zero : n ≡ 0 = ground (arith, star, e) in
      (omega (arith, zero), inl ((same_codes_iff field (b'*' ∷ [])).0 star, zero))
  | inr other ↦ elim (Option-cases (parse_int field)) [
    | inl bad ↦ absurd (ground (arith, other, bad, e))
    | inr ((negative, v), good) ↦ of_value negative v other good
  ]
]
  where
    of_value :
        (negative : Bool) (v : ℕ)
        → same_codes field (b'*' ∷ []) ≡ false
        → parse_int field ≡ some (negative, v)
        → Denotes field most n
    of_value true v other good = absurd (ground (arith, other, good, e))
    of_value false v other good =
        let same : v ≡ n = ground (arith, other, good, e) in
        let bound : n ≤ most = ground (arith, other, good, e) in
        (
          bound,
          inr (
            λ star. ground (arith, other, (same_codes_iff field (b'*' ∷ [])).1 star),
            good ∙ ap (λ k. some (false, k)) same,
          ),
        )

next_at-bounds :
    (minute hour from u : ℕ)
    → minute ≤ 59
    → hour ≤ 23
    → from < u
    → u % day ≡ next_at minute hour from % day
    → (from < next_at minute hour from)
      × (next_at minute hour from ≤ from + day)
      × (next_at minute hour from % day ≡ slot minute hour)
      × (next_at minute hour from ≤ u)
unfolding next_at
next_at-bounds minute hour from u m h later same =
    (ground arith, ground arith, ground arith, ground arith)

-- The next run of an accepted expression of five fields: with the minute that the first one names and the
-- hour that the second one names, and `*` in the others, the run is at that time of a day, strictly after
-- the present, also where the present is such a time, and at most a day later; no later time at that
-- time of a day, `u`, comes before it.
pub next_scheduled_time-bounds :
    (expression : String) (from t u : ℕ)
    → next_scheduled_time expression from ≡ some t
    → from < u
    → u % day ≡ t % day
    → ((minute : ℕ) × (hour : ℕ) × Names expression minute hour × (t % day ≡ slot minute hour))
      × (from < t)
      × (t ≤ from + day)
      × (t ≤ u)
unfolding next_scheduled_time
next_scheduled_time-bounds expression from t u e later same =
    of_fields (fields [] (codes expression)) refl e
  where
    Bounds : Type 0
    Bounds =
        ((minute : ℕ) × (hour : ℕ) × Names expression minute hour × (t % day ≡ slot minute hour))
        × (from < t)
        × (t ≤ from + day)
        × (t ≤ u)

    of_times :
        (a b : List ℕ) (minute hour : Option ℕ)
        → fields [] (codes expression) ≡ a ∷ b ∷ (b'*' ∷ []) ∷ (b'*' ∷ []) ∷ (b'*' ∷ []) ∷ []
        → ((n : ℕ) → minute ≡ some n → Denotes a 59 n)
        → ((n : ℕ) → hour ≡ some n → Denotes b 23 n)
        → both minute hour from ≡ some t
        → Bounds
    of_times a b none hour split mb hb e = cc
    of_times a b (some m) none split mb hb e = cc
    of_times a b (some m) (some h) split mb hb e =
        let is : next_at m h from ≡ t = ground (arith, e) in
        let k =
          next_at-bounds m h from u (mb m refl).0 (hb h refl).0 later (ground (arith, is, same)) in
        (
          (m, h, (a, b, split, mb m refl, hb h refl), ground (arith, is, k)),
          ground (arith, is, k),
          ground (arith, is, k),
          ground (arith, is, k),
        )

    stars_only :
        (a b c d w : List ℕ)
        → fields [] (codes expression) ≡ a ∷ b ∷ c ∷ d ∷ w ∷ []
        → (is_star c && is_star d && is_star w) ≡ true
        → fields [] (codes expression) ≡ a ∷ b ∷ (b'*' ∷ []) ∷ (b'*' ∷ []) ∷ (b'*' ∷ []) ∷ []
    stars_only a b c d w split stars = grind (
      arith,
      split,
      stars,
      same_codes_iff c (b'*' ∷ []),
      same_codes_iff d (b'*' ∷ []),
      same_codes_iff w (b'*' ∷ []),
    )

    of_fields :
        (fs : List (List ℕ))
        → fields [] (codes expression) ≡ fs
        → next_of_fields fs from ≡ some t
        → Bounds
    of_fields [] split e = cc
    of_fields (a ∷ []) split e = cc
    of_fields (a ∷ b ∷ []) split e = cc
    of_fields (a ∷ b ∷ c ∷ []) split e = cc
    of_fields (a ∷ b ∷ c ∷ d ∷ []) split e = cc
    of_fields (a ∷ b ∷ c ∷ d ∷ w ∷ []) split e =
        elim (Bool-cases (is_star c && is_star d && is_star w)) [
          | inl stars ↦
              of_times a b (parse_int_cron_field a 0 59) (parse_int_cron_field b 0 23)
                (stars_only a b c d w split stars) (λ n. parse_int_cron_field-Denotes a 59 n)
                (λ n. parse_int_cron_field-Denotes b 23 n) (ground (arith, stars, e))
          | inr other ↦ absurd (ground (arith, other, e))
        ]
    of_fields (a ∷ b ∷ c ∷ d ∷ w ∷ x ∷ r) split e = cc

-- Whether an expression is accepted does not depend on the present.
pub next_scheduled_time-is_some :
    (expression : String) (from later : ℕ)
    → is_some (next_scheduled_time expression from) ≡ true
    → is_some (next_scheduled_time expression later) ≡ true
unfolding next_scheduled_time
next_scheduled_time-is_some expression from later = of_fields (fields [] (codes expression))
  where
    of_times :
        (minute hour : Option ℕ)
        → is_some (both minute hour from) ≡ true
        → is_some (both minute hour later) ≡ true
    of_times none hour e = cc
    of_times (some m) none e = cc
    of_times (some m) (some h) e = refl

    of_fields :
        (fs : List (List ℕ))
        → is_some (next_of_fields fs from) ≡ true
        → is_some (next_of_fields fs later) ≡ true
    of_fields [] e = cc
    of_fields (a ∷ []) e = cc
    of_fields (a ∷ b ∷ []) e = cc
    of_fields (a ∷ b ∷ c ∷ []) e = cc
    of_fields (a ∷ b ∷ c ∷ d ∷ []) e = cc
    of_fields (a ∷ b ∷ c ∷ d ∷ w ∷ []) e = elim (Bool-cases (is_star c && is_star d && is_star w)) [
      | inl stars ↦
          rw stars
            (of_times (parse_int_cron_field a 0 59) (parse_int_cron_field b 0 23) (rw stars at e))
      | inr other ↦ ground (arith, other, e)
    ]
    of_fields (a ∷ b ∷ c ∷ d ∷ w ∷ x ∷ r) e = cc
