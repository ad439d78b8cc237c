-- ===== src/Registry/History.antt =====
-- What holds of `SettlementRegistry` in src/lib.rs after any sequence of calls.
use kurrent.Base.{
  List, String, [], arith, contains, contains-insert_key, false, get, get-insert-cases,
  get-insert_ne, inl, inr, list_eq, nat_eq, option_eq, pair_eq, refl, some, string_eq, subst, sym,
  true, ℕ, ◌∙◌, ◌∷◌, ◌≡◌, ◌≢◌, ◌≤◌,
}
use kurrent.Errors.{Result, ok}
use kurrent.External.{External}
use kurrent.Registry.Calls.{
  Call, Change, Effect, claimed, done, failed, panicked, perform, perform-Effect, recorded,
  registered, run, settled,
}
use kurrent.Registry.Checks.{check_update}
use kurrent.Registry.Methods.{record_update}
use kurrent.Registry.Preservation.{Change-IsValid, after_latest}
use kurrent.Registry.State.{SettlementRegistry}
use kurrent.Registry.Validity.{IsValid, Passed-fresh, check_update-Passed}
use kurrent.Types.{LatestStateHeader, SameNumberConflictRule, StateUpdate}

-- An accepted update writes at a fresh number, so a commitment seen before stays.
recorded_seen :
    (r : SettlementRegistry) (update : StateUpdate) (rule : SameNumberConflictRule)
    → check_update r update rule ≡ ok tt
    → IsValid r
    → (c : String) (n : ℕ) (s : String) → get (c, n) r.seen_commitments ≡ some s
    → get (c, n) (record_update update r).seen_commitments ≡ some s
unfolding record_update
recorded_seen r update rule h valid c n s found =
    let fresh = Passed-fresh r update valid (check_update-Passed r update rule h) in
    elim (get-insert-cases (update.header.channel_id, update.header.state_number) (c, n)
      update.header.new_state_commitment r.seen_commitments) [
        | inl (same, e) ↦ cc
        | inr (other, e) ↦ e ∙ found
      ]

module _ (x : External) where
  effect_keeps :
      {A : Type 0} (P : SettlementRegistry → Type 0) (r : SettlementRegistry)
      (m : Result A × SettlementRegistry)
      → Effect (Change x r) r m
      → ((r' : SettlementRegistry) → Change x r r' → P r')
      → P r
      → P m.1
  effect_keeps P r _ (done v r' change) h p = h r' change
  effect_keeps P r _ (failed e) h p = p
  effect_keeps P r _ panicked h p = p

  -- What every change keeps holds after any calls.
  pub run_keeps :
      (P : SettlementRegistry → Type 0)
      → ((r r' : SettlementRegistry) → Change x r r' → P r → P r')
      → (calls : List Call) (r : SettlementRegistry) → P r
      → P (run x calls r)
  unfolding run
  run_keeps P h [] r p = p
  run_keeps P h (c ∷ calls) r p =
      run_keeps P h calls (perform x c r).1
        (effect_keeps P r (perform x c r) (perform-Effect x c r) (λ r' change. h r r' change p) p)

  -- A call that fails leaves the registry as it was.
  pub failed_call_unchanged :
      (c : Call) (r : SettlementRegistry) → (perform x c r).0 ≢ ok tt → (perform x c r).1 ≡ r
  failed_call_unchanged c r h = go (perform x c r) (perform-Effect x c r) h
    where
      go :
          (m : Result (Unit {0}) × SettlementRegistry)
          → Effect (Change x r) r m
          → m.0 ≢ ok tt
          → m.1 ≡ r
      go _ (done v r' change) n = absurd (n refl)
      go _ (failed e) n = refl
      go _ panicked n = refl

  -- Any calls keep a valid registry valid.
  pub run-IsValid :
      (calls : List Call) (r : SettlementRegistry) → IsValid r → IsValid (run x calls r)
  run-IsValid = run_keeps IsValid (Change-IsValid x)

  -- No calls replace a commitment that was seen, under either rule for equal state numbers.
  pub seen_commitment_permanent :
      (calls : List Call) (r : SettlementRegistry) (c : String) (n : ℕ) (s : String)
      → IsValid r
      → get (c, n) r.seen_commitments ≡ some s
      → get (c, n) (run x calls r).seen_commitments ≡ some s
  unfolding record_update
  seen_commitment_permanent calls r c n s valid found =
      (run_keeps (λ r. IsValid r × (get (c, n) r.seen_commitments ≡ some s)) step calls r
        (valid, found)).1
    where
      step :
          (r r' : SettlementRegistry)
          → Change x r r'
          → IsValid r × (get (c, n) r.seen_commitments ≡ some s)
          → IsValid r' × (get (c, n) r'.seen_commitments ≡ some s)
      step r _ (recorded update rule h) (valid, found) = (
        Change-IsValid x r _ (recorded update rule h) valid,
        recorded_seen r update rule h valid c n s found,
      )
      step r _ (claimed claim_id new) (valid, found) =
          (Change-IsValid x r _ (claimed claim_id new) valid, found)
      step r _ (registered key new) (valid, found) =
          (Change-IsValid x r _ (registered key new) valid, found)
      step r _ (settled update template latest key h new) (valid, found) =
          (Change-IsValid x r _ (settled update template latest key h new) valid, found)

  -- A channel that has a latest header keeps one, and its state number never falls.
  pub latest_number_monotone :
      (calls : List Call) (r : SettlementRegistry) (c : String) (h : LatestStateHeader)
      → get c r.latest_by_channel ≡ some h
      → (h' : LatestStateHeader) × (get c (run x calls r).latest_by_channel ≡ some h')
        × (h.state_number ≤ h'.state_number)
  unfolding record_update
  latest_number_monotone calls r c h found =
      run_keeps
        (λ r.
          (h' : LatestStateHeader) × (get c r.latest_by_channel ≡ some h')
          × (h.state_number ≤ h'.state_number))
        step calls r (h, found, omega arith)
    where
      step :
          (r r' : SettlementRegistry)
          → Change x r r'
          → (h' : LatestStateHeader) × (get c r.latest_by_channel ≡ some h')
            × (h.state_number ≤ h'.state_number)
          → (h' : LatestStateHeader) × (get c r'.latest_by_channel ≡ some h')
            × (h.state_number ≤ h'.state_number)
      step r _ (recorded update rule g) (h', found, l) =
          elim (get-insert-cases update.header.channel_id c update.header r.latest_by_channel) [
            | inl (same, e) ↦
                (let next =
                    after_latest r update (check_update-Passed r update rule g) h'
                      (subst (λ i. get i r.latest_by_channel ≡ some h') (sym same) found) in
                  (update.header, e, omega arith))
            | inr (other, e) ↦ (h', e ∙ found, l)
          ]
      step r _ (claimed claim_id new) p = p
      step r _ (registered key new) p = p
      step r _ (settled update template latest key g new) p = p

  -- After a settlement no calls change the channel's latest header or reopen the channel.
  pub settled_channel_final :
      (calls : List Call) (r : SettlementRegistry) (c : String)
      → contains c r.settled_channels ≡ true
      → (contains c (run x calls r).settled_channels ≡ true)
        × (get c (run x calls r).latest_by_channel ≡ get c r.latest_by_channel)
  unfolding record_update
  settled_channel_final calls r c final =
      run_keeps
        (λ r'.
          (contains c r'.settled_channels ≡ true)
          × (get c r'.latest_by_channel ≡ get c r.latest_by_channel))
        step calls r (final, refl)
    where
      step :
          (s s' : SettlementRegistry)
          → Change x s s'
          → (contains c s.settled_channels ≡ true)
            × (get c s.latest_by_channel ≡ get c r.latest_by_channel)
          → (contains c s'.settled_channels ≡ true)
            × (get c s'.latest_by_channel ≡ get c r.latest_by_channel)
      step s _ (recorded update rule g) (p, q) = (
        p,
        get-insert_ne update.header.channel_id c update.header s.latest_by_channel (λ same. cc (
          subst (λ i. contains i s.settled_channels ≡ false) same
              (check_update-Passed s update rule g).open_channel,
          p,
        ))
            ∙ q,
      )
      step s _ (claimed claim_id new) p = p
      step s _ (registered key new) p = p
      step s _ (settled update template latest key g new) (p, q) =
          (ground (arith, contains-insert_key update.header.channel_id c s.settled_channels), q)
