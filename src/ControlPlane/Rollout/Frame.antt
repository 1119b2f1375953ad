-- ===== src/ControlPlane/Rollout/Frame.antt =====
-- What awaiting a query leaves alone: the part of the state that neither time nor an operator's
-- abort request can change. Rules by which such a part is followed through a program.
use dnd_notes.Common.{ℕ, String, ◌≡◌, refl, ◌∙◌, List, [], ◌∷◌, arith}
use dnd_notes.Common.Prog.{Result, ok, err, Prog, follow, recover, ◌>>=◌, try_catch, pure}
use dnd_notes.ControlPlane.Rollout.Tables.{
  RolloutRow, State, Turn, Event, quiet, fault, abort_request, meet, settle_from, settle, await,
}

module _ {F : Type 0} (view : State → F) where
  -- The view does not look at what a turn changes.
  abbrev pub IsApart : Type 0
  IsApart =
      (s : State) (c : ℕ) (ts : List Turn) (rs : List RolloutRow)
      → view (record s { clock = c; schedule = ts; rollouts = rs }) ≡ view s

  abbrev pub Keeps : {A : Type 0} → Prog State A → Type 0
  Keeps m = (s : State) → view (m s).1 ≡ view s

  pub meet-keeps :
      (e : Event) (s : State) (c : ℕ) (ts : List Turn)
      → IsApart
      → view (meet e (record s { clock = c; schedule = ts })).1 ≡ view s
  meet-keeps quiet s c ts h = h s c ts s.rollouts
  meet-keeps (fault message) s c ts h = h s c ts s.rollouts
  meet-keeps (abort_request i r) s c ts h = h s c ts _

  pub settle-keeps : IsApart → (s : State) → view (settle s).1 ≡ view s
  unfolding settle
  settle-keeps h s = by_schedule s.schedule
    where
      by_schedule : (ts : List Turn) → view (settle_from ts s).1 ≡ view s
      by_schedule [] = refl
      by_schedule (t ∷ ts) = meet-keeps t.event s _ ts h

  pub await-Keeps :
      {A : Type 0} (q : State → A × State)
      → IsApart
      → ((s : State) → view (q s).1 ≡ view s)
      → Keeps (await q)
  unfolding await
  await-Keeps q h k s = ground (arith, settle-keeps h s, k (settle s).1)

  pub bind-Keeps :
      {A B : Type 0} (m : Prog State A) (f : A → Prog State B)
      → Keeps m
      → ((a : A) → Keeps (f a))
      → Keeps (m >>= f)
  bind-Keeps {A} m f hm hf s = by_result (m s) (hm s)
    where
      by_result : (r : Result A × State) → view r.1 ≡ view s → view (follow r f).1 ≡ view s
      by_result (ok a, t) e = hf a t ∙ e
      by_result (err x, t) e = e

  pub try_catch-Keeps :
      {A : Type 0} (m : Prog State A) (h : String → Prog State A)
      → Keeps m
      → ((e : String) → Keeps (h e))
      → Keeps (try_catch m h)
  try_catch-Keeps {A} m h hm hh s = by_result (m s) (hm s)
    where
      by_result : (r : Result A × State) → view r.1 ≡ view s → view (recover r h).1 ≡ view s
      by_result (ok a, t) e = e
      by_result (err x, t) e = hh x t ∙ e

  pub pure-Keeps : {A : Type 0} (a : A) → Keeps (pure a)
  pure-Keeps a s = refl
