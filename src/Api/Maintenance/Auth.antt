-- ===== src/Api/Maintenance/Auth.antt =====
-- Who may use the control endpoints.
use dnd_notes.Common.{
  ℕ, Bool, true, false, ◌≡◌, ◌↔◌, refl, sym, ap, ◌∙◌, Option, none, some, List, length, codes,
  if◌then◌else◌, ◌=ℕ◌, arith, inl, inr, Bool-cases, some_unique,
}
use dnd_notes.Api.References.{strip_prefix, trim, is_empty}
use dnd_notes.Api.Maintenance.{
  authorized, unconfigured, compare_control_plane_tokens, authorize, check_provided,
}

module _ (utf8 : List ℕ → List ℕ) (timing_safe_equal : List ℕ → List ℕ → Bool)
    (timing_safe_equal_iff : (a b : List ℕ)
      → length a ≡ length b
      → (timing_safe_equal a b ≡ true) ↔ (a ≡ b)) where
  compare_control_plane_tokens_iff :
      (expected provided : List ℕ)
      → (compare_control_plane_tokens utf8 timing_safe_equal expected provided ≡ true)
        ↔ (utf8 expected ≡ utf8 provided)
  unfolding compare_control_plane_tokens
  compare_control_plane_tokens_iff expected provided =
      let a = utf8 expected in
      let b = utf8 provided in
      elim (Bool-cases (length a =ℕ length b)) [
        | inl e ↦ rw e (timing_safe_equal_iff a b (ground (arith, e)))
        | inr e ↦
            rw e ((λ h. cc), (λ same. absurd (differ (length a) (length b) e (ap length same))))
      ]
    where
      differ : (m n : ℕ) → (m =ℕ n) ≡ false → m ≡ n → ⊥
      differ m n e same = ground (arith, e, same)

  -- A request with a header passes exactly where a token is configured that is not blank, and the header is
  -- "Bearer " and a text that has, when trimmed, the bytes of the trimmed token.
  pub authorize-authorized :
      (token header : List ℕ)
      → (authorize utf8 timing_safe_equal (some token) (some header) ≡ authorized) ↔ (
          (is_empty (trim token) ≡ false)
          × (provided : List ℕ) × (strip_prefix (codes "Bearer ") header ≡ some provided)
          × (utf8 (trim token) ≡ utf8 (trim provided)))
  unfolding authorize
  authorize-authorized token header =
      by_token (trim token) (is_empty (trim token)) (strip_prefix (codes "Bearer ") header)
    where
      refuse : {b : Bool} → b ≡ false → b ≡ true → ⊥
      refuse e h = cc

      by_token :
          (t : List ℕ) (blank : Bool) (o : Option (List ℕ))
          → ((elim (if blank then none else some t) [
            | none ↦ unconfigured
            | some expected ↦ check_provided utf8 timing_safe_equal expected o
          ])
              ≡ authorized)
            ↔ ((blank ≡ false)
                × (provided : List ℕ) × (o ≡ some provided)
                × (utf8 t ≡ utf8 (trim provided)))
      by_token t true o = ((λ e. cc), (λ (e, p, same, q). cc))
      by_token t false none = ((λ e. cc), (λ (e, p, same, q). cc))
      by_token t false (some provided) =
          elim (Bool-cases
            (compare_control_plane_tokens utf8 timing_safe_equal t (trim provided))) [
              | inl ok ↦ rw ok (
                (λ e. (
                  refl,
                  provided,
                  refl,
                  (compare_control_plane_tokens_iff t (trim provided)).0 ok,
                )),
                (λ h. refl),
              )
              | inr bad ↦ rw bad (
                (λ e. cc),
                (λ (e, p, same, q). absurd (
                    refuse bad (
                      (compare_control_plane_tokens_iff t (trim provided)).1
                        (q ∙ ap (λ x. utf8 (trim x)) (sym (some_unique same)))))),
              )
            ]
