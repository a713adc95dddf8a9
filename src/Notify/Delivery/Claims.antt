-- ===== src/Notify/Delivery/Claims.antt =====
-- Which delivery `ClaimDueNotification` of internal/notify/queries.sql claims.
use dbs_monitor.Prelude.{
  ℕ, ◌≤◌, ◌≡◌, refl, ◌⊎◌, Bool, true, false, not, ◌&&◌, Option, none, some, List, [], ◌∷◌, arith,
  String, if◌then◌else◌, Bool-cases, Option-cases, inl, inr, All, subst,
}
use dbs_monitor.Notify.Delivery.{
  DeliveryStatus, pending, sent, failed, is_pending, NotificationDelivery, is_unlocked,
  is_claimable, claimed_before, prefer, next_claim,
}

-- `x` is not due before `d`, nor due at the same time and created before it.
abbrev pub NotBefore : NotificationDelivery → NotificationDelivery → Type 0
NotBefore d x =
    (d.next_attempt_at ≤ x.next_attempt_at)
    × (d.next_attempt_at ≡ x.next_attempt_at → d.created_at ≤ x.created_at)

-- `d` is one of the list.
abbrev pub Among : NotificationDelivery → List NotificationDelivery → Type 0
Among d [] = ⊥
Among d (x ∷ rows) = (d ≡ x) ⊎ Among d rows

module _ (held : String → Bool) (now : ℕ) where
  -- Pending and due, and locked neither by a claim until after now nor by another transaction.
  pub record Claimable (d : NotificationDelivery) : Type 0 where
    pub waits : d.status ≡ pending
    pub due : d.next_attempt_at ≤ now
    pub unlocked : (d.locked_until ≡ none) ⊎ (t : ℕ) × (d.locked_until ≡ some t) × (t ≤ now)
    pub free : held d.id ≡ false

  -- What the claim tests.
  abbrev is_free : NotificationDelivery → Bool
  is_free d = is_claimable now d && not (held d.id)

  is_pending→≡ : (s : DeliveryStatus) → is_pending s ≡ true → s ≡ pending
  is_pending→≡ pending h = refl
  is_pending→≡ sent h = cc
  is_pending→≡ failed h = cc

  is_free-Claimable : (d : NotificationDelivery) → is_free d ≡ true → Claimable d
  is_free-Claimable d h = record {
    waits = is_pending→≡ d.status (ground arith);
    due = ground arith;
    unlocked = elim (Option-cases d.locked_until) [
      | inl open_row ↦ inl open_row
      | inr (t, until) ↦
          let free_until : is_unlocked d.locked_until now ≡ true = ground arith in
          let past : is_unlocked (some t) now ≡ true =
            subst (λ o. is_unlocked o now ≡ true) until free_until in
          inr (t, until, ground (arith, past))
    ];
    free = ground arith;
  }

  Claimable-is_free : (d : NotificationDelivery) → Claimable d → is_free d ≡ true
  Claimable-is_free d c = elim c.unlocked [
    | inl open_row ↦ rw (c.waits, open_row, c.free) (ground (arith, c.due))
    | inr (t, until, past) ↦ rw (c.waits, until, c.free) (ground (arith, c.due, past))
  ]

  -- No row that can be claimed comes before `d`.
  abbrev First : NotificationDelivery → List NotificationDelivery → Type 0
  First d = All λ x. is_free x ≡ true → NotBefore d x

  First-trans :
      (d e : NotificationDelivery) (rows : List NotificationDelivery)
      → NotBefore d e
      → First e rows
      → First d rows
  First-trans d e [] h a = tt
  First-trans d e (r ∷ rows) h a = (λ k. ground (arith, h, a.0 k), First-trans d e rows h a.1)

  First-of_none :
      (d : NotificationDelivery) (rows : List NotificationDelivery)
      → All (λ x. is_free x ≡ false) rows
      → First d rows
  First-of_none d [] a = tt
  First-of_none d (r ∷ rows) a = (λ k. cc (k, a.0), First-of_none d rows a.1)

  -- What holds of an answer of `next_claim`.
  abbrev Claims : List NotificationDelivery → Option NotificationDelivery → Type 0
  Claims rows none = All (λ x. is_free x ≡ false) rows
  Claims rows (some d) = (is_free d ≡ true) × Among d rows × First d rows

  chosen-Claims :
      (r b : NotificationDelivery) (rows : List NotificationDelivery) (before : Bool)
      → claimed_before b r ≡ before
      → is_free r ≡ true
      → Claims rows (some b)
      → Claims (r ∷ rows) (some (if before then b else r))
  unfolding claimed_before
  chosen-Claims r b rows true c e h = (h.0, inr h.1, ((λ _. ground (arith, c)), h.2))
  chosen-Claims r b rows false c e h =
      (e, inl refl, ((λ _. ground arith), First-trans r b rows (ground (arith, c)) h.2))

  prefer-Claims :
      (r : NotificationDelivery) (rows : List NotificationDelivery)
      (o : Option NotificationDelivery)
      → is_free r ≡ true
      → Claims rows o
      → Claims (r ∷ rows) (some (prefer r o))
  unfolding prefer
  prefer-Claims r rows none e h = (e, inl refl, ((λ _. ground arith), First-of_none r rows h))
  prefer-Claims r rows (some b) e h = chosen-Claims r b rows _ refl e h

  Claims-cons :
      (r : NotificationDelivery) (rows : List NotificationDelivery)
      (o : Option NotificationDelivery)
      → is_free r ≡ false
      → Claims rows o
      → Claims (r ∷ rows) o
  Claims-cons r rows none e h = (e, h)
  Claims-cons r rows (some b) e h = (h.0, inr h.1, ((λ k. cc (k, e)), h.2))

  next_claim-Claims : (rows : List NotificationDelivery) → Claims rows (next_claim held now rows)
  unfolding next_claim
  next_claim-Claims [] = tt
  next_claim-Claims (r ∷ rows) = elim (Bool-cases (is_free r)) [
    | inl ready ↦
        rw ready (prefer-Claims r rows (next_claim held now rows) ready (next_claim-Claims rows))
    | inr out ↦ rw out (Claims-cons r rows (next_claim held now rows) out (next_claim-Claims rows))
  ]

  First-Claimable :
      (d : NotificationDelivery) (rows : List NotificationDelivery)
      → First d rows
      → All (λ x. Claimable x → NotBefore d x) rows
  First-Claimable d [] a = tt
  First-Claimable d (r ∷ rows) a = (λ c. a.0 (Claimable-is_free r c), First-Claimable d rows a.1)

  none-Claimable :
      (rows : List NotificationDelivery)
      → All (λ x. is_free x ≡ false) rows
      → All (λ x. ¬ Claimable x) rows
  none-Claimable [] a = tt
  none-Claimable (r ∷ rows) a = (λ c. cc (a.0, Claimable-is_free r c), none-Claimable rows a.1)

  -- The delivery that is claimed is one of the rows, pending and due, and locked neither by a claim
  -- until after now nor by another transaction; no other such row was due before it, nor at the same
  -- time and created before it.
  pub next_claim_lem :
      (rows : List NotificationDelivery) {d : NotificationDelivery}
      → next_claim held now rows ≡ some d
      → Claimable d × Among d rows × All (λ x. Claimable x → NotBefore d x) rows
  next_claim_lem rows {d} e =
      let c : Claims rows (some d) = subst (Claims rows) e (next_claim-Claims rows) in
      (is_free-Claimable d c.0, c.1, First-Claimable d rows c.2)

  -- No delivery is claimed only if no row can be.
  pub next_claim-none :
      (rows : List NotificationDelivery)
      → next_claim held now rows ≡ none
      → All (λ x. ¬ Claimable x) rows
  next_claim-none rows e =
      let c : Claims rows none = subst (Claims rows) e (next_claim-Claims rows) in
      none-Claimable rows c
