-- ===== src/Solana/Methods/Members.antt =====
-- Who is a member of a run: `join_run` and `update` of instance_state.rs.
use psyche.Base.{
  ◌||◌, ℕ, ◌≡◌, ◌≢◌, refl, sym, inl, inr, true, false, Option, some, List, [], ◌∷◌, ◌++◌, ◌==◌, ok,
  arith, Bool-cases,
}
use psyche.Coordinator.Config
use psyche.Coordinator.Model
use psyche.Coordinator.Model.{Model}
use psyche.Coordinator.Types.{finished, CoordinatorConfig, CoordinatorProgress}
use psyche.Coordinator.Config.{check_progress}
use psyche.Coordinator.Rounds.{halted}
use psyche.Solana.ClientsState.{ClientId, Client, find}
use psyche.Solana.Instance.{CoordinatorInstanceState, RunMetadata}
use psyche.Solana.Methods.{
  join, join_new, rejoin, newcomer, update, update_config, update_model, update_progress, or_else,
  is_some,
}

abbrev signer_of : Client → ℕ
signer_of x = x.id.signer

-- No client of the list has the signer.
abbrev Fresh : ℕ → List Client → Type 0
Fresh signer [] = Unit
Fresh signer (x ∷ xs) = (x.id.signer ≢ signer) × Fresh signer xs

-- No two clients have the same signer.
abbrev pub Distinct : List Client → Type 0
Distinct [] = Unit
Distinct (x ∷ xs) = Fresh x.id.signer xs × Distinct xs

-- What a search for a member leaves.
rejoin-Fresh :
    (id : ClientId) (active signer : ℕ) (xs : List Client)
    → Fresh signer xs
    → Fresh signer (rejoin id active xs).1
unfolding rejoin
rejoin-Fresh id active signer [] h = tt
rejoin-Fresh id active signer (x ∷ xs) h = elim (Bool-cases (x.id.signer == id.signer)) [
  | inl same ↦ let is : x.id.signer ≡ id.signer = ground arith in rw same (rw (sym is) h.0, h.1)
  | inr differs ↦ rw differs (h.0, rejoin-Fresh id active signer xs h.1)
]

rejoin-Distinct :
    (id : ClientId) (active : ℕ) (xs : List Client) → Distinct xs → Distinct (rejoin id active xs).1
unfolding rejoin
rejoin-Distinct id active [] h = tt
rejoin-Distinct id active (x ∷ xs) h = elim (Bool-cases (x.id.signer == id.signer)) [
  | inl same ↦ let is : x.id.signer ≡ id.signer = ground arith in rw same (rw (sym is) h.0, h.1)
  | inr differs ↦
      rw differs (rejoin-Fresh id active x.id.signer xs h.0, rejoin-Distinct id active xs h.1)
]

rejoin-new :
    (id : ClientId) (active : ℕ) (xs : List Client)
    → (rejoin id active xs).0 ≡ false
    → Fresh id.signer xs
unfolding rejoin
rejoin-new id active [] h = tt
rejoin-new id active (x ∷ xs) h = elim (Bool-cases (x.id.signer == id.signer)) [
  | inl same ↦ let is : x.id.signer ≡ id.signer = ground arith in absurd (ground arith)
  | inr differs ↦ (ground arith, rejoin-new id active xs (ground arith))
]

rejoin-found :
    (id : ClientId) (active : ℕ) (xs : List Client)
    → (rejoin id active xs).0 ≡ true
    → (x : Client) × (find id.signer (rejoin id active xs).1 ≡ some x)
      × (x.id ≡ id)
      × (x.active ≡ active)
unfolding rejoin find
rejoin-found id active [] h = cc
rejoin-found id active (x ∷ xs) h = elim (Bool-cases (x.id.signer == id.signer)) [
  | inl same ↦
      let is : x.id.signer ≡ id.signer = ground arith in
      rw same (record x { id = id; active = active }, ground arith, refl, refl)
  | inr differs ↦ rw (differs, differs) (rejoin-found id active xs (ground arith))
]

Fresh-snoc :
    (signer : ℕ) (xs : List Client) (y : Client)
    → Fresh signer xs
    → y.id.signer ≢ signer
    → Fresh signer (xs ++ (y ∷ []))
Fresh-snoc signer [] y h k = (k, tt)
Fresh-snoc signer (x ∷ xs) y h k = (h.0, Fresh-snoc signer xs y h.1 k)

Distinct-snoc :
    (xs : List Client) (y : Client) → Distinct xs → Fresh y.id.signer xs → Distinct (xs ++ (y ∷ []))
Distinct-snoc [] y h k = (tt, tt)
Distinct-snoc (x ∷ xs) y h k =
    (Fresh-snoc x.id.signer xs y h.0 (λ e. k.0 (sym e)), Distinct-snoc xs y h.1 k.1)

find-snoc :
    (xs : List Client) (y : Client)
    → Fresh y.id.signer xs
    → find y.id.signer (xs ++ (y ∷ [])) ≡ some y
unfolding find
find-snoc [] y h = ground arith
find-snoc (x ∷ xs) y h = ground (arith, find-snoc xs y h.1)

-- The members of a run have distinct signers, and the last one that joined is among them.
pub record Joined (id : ClientId) (active : ℕ) (xs : List Client) : Type 0 where
  pub distinct : Distinct xs
  pub present : (x : Client) × (find id.signer xs ≡ some x) × (x.id ≡ id) × (x.active ≡ active)

-- Where the members have distinct signers and `join` succeeds, the client is afterwards a member
-- under the id it gave and active, the members still have distinct signers, and the coordinator
-- and the activity counter are as before.
pub join-Joined :
    (id : ClientId) (s t : CoordinatorInstanceState)
    → join id s ≡ ok tt t
    → Distinct s.clients_state.clients
    → Joined id s.clients_state.next_active t.clients_state.clients
      × (t.coordinator ≡ s.coordinator)
      × (t.clients_state.next_active ≡ s.clients_state.next_active)
unfolding join join_new
join-Joined id s t h distinct =
    let active = s.clients_state.next_active in
    let xs = s.clients_state.clients in
    elim (Bool-cases (rejoin id active xs).0) [
      | inl found ↦
          let list : t.clients_state.clients ≡ (rejoin id active xs).1 = ground arith in
          (
            rw list (record {
              distinct = rejoin-Distinct id active xs distinct;
              present = rejoin-found id active xs found;
            }),
            ground arith,
            ground arith,
          )
      | inr new ↦
          let list : t.clients_state.clients ≡ xs ++ (newcomer id active ∷ []) = ground arith in
          let fresh = rejoin-new id active xs new in
          (
            rw list (record {
              distinct = Distinct-snoc xs (newcomer id active) distinct fresh;
              present = (newcomer id active, find-snoc xs (newcomer id active) fresh, refl, refl);
            }),
            ground arith,
            ground arith,
          )
    ]

-- An update that succeeds was not made on a finished run. If it gave a configuration, a model or a
-- progress, the run was halted, and what was given passed its check; each of the three is then what
-- was given, or else what it was.
pub update-ok :
    (md : Option RunMetadata) (cf : Option CoordinatorConfig) (mo : Option Model)
    (pr : Option CoordinatorProgress) (s t : CoordinatorInstanceState)
    → update md cf mo pr s ≡ ok tt t
    → (s.coordinator.run_state ≢ finished)
      × (is_some cf || is_some mo || is_some pr ≡ true → halted s.coordinator ≡ true)
      × ((c : CoordinatorConfig) → cf ≡ some c → Config.check c ≡ true)
      × ((m : Model) → mo ≡ some m → Model.check m ≡ true)
      × ((p : CoordinatorProgress) → pr ≡ some p → check_progress p ≡ true)
      × (t.coordinator.config ≡ or_else cf s.coordinator.config)
      × (t.coordinator.model ≡ or_else mo s.coordinator.model)
      × (t.coordinator.progress ≡ or_else pr s.coordinator.progress)
      × (t.coordinator.run_state ≡ s.coordinator.run_state)
unfolding update update_config update_model update_progress
update-ok md cf mo pr s t h = ground arith
