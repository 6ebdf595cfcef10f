-- ===== src/Server/Attempts.antt =====
-- The calls of the coordinator in the centralized server, architectures/centralized/server/src/app.rs:
-- the rule of a call whose error is only logged.
use psyche.Base.{inl, inr, Outcome-cases}
use psyche.Base.Keeps.{Leaves, Keeps}
use psyche.Coordinator.Types.{Coordinator, Coord}
use psyche.Server.{App, with_coordinator, attempt}

module _ {T A : Type 0} where
  -- What the call keeps of the coordinator, the attempt keeps of the app.
  pub attempt-Keeps :
      {P : Coordinator T → Type 0} {R : App T → Type 0} {m : Coord T A}
      → ((app : App T) → R app → P app.coordinator)
      → ((app : App T) (c : Coordinator T) → R app → P c → R (with_coordinator c app))
      → Keeps P m
      → Keeps R (attempt m)
  unfolding attempt
  attempt-Keeps {P} {R} {m} reads writes h = record {
    keeps = λ app q.
        let result : Leaves P (m app.coordinator) = h.keeps app.coordinator (reads app q) in
        elim (Outcome-cases (m app.coordinator)) [
          | inl (a, c, is) ↦ rw (is, Leaves) (writes app c q (rw (is, Leaves) at result))
          | inr (inl (e, c, is)) ↦ rw (is, Leaves) (writes app c q (rw (is, Leaves) at result))
          | inr (inr is) ↦ rw (is, Leaves) tt
        ];
  }

  nothing-Keeps : (m : Coord T A) → Keeps (λ _. Unit {0}) m
  nothing-Keeps m = record {
    keeps = λ c h. elim (Outcome-cases (m c)) [
      | inl (a, d, is) ↦ rw (is, Leaves) tt
      | inr (inl (e, d, is)) ↦ rw (is, Leaves) tt
      | inr (inr is) ↦ rw (is, Leaves) tt
    ];
  }

  -- A predicate of the rest of the app is kept whatever the call does.
  pub aside-Keeps :
      {R : App T → Type 0}
      → ((app : App T) (c : Coordinator T) → R app → R (with_coordinator c app))
      → (m : Coord T A) → Keeps R (attempt m)
  aside-Keeps writes m = attempt-Keeps (λ app q. tt) (λ app c q k. writes app c q) (nothing-Keeps m)
