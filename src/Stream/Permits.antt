-- ===== src/Stream/Permits.antt =====
-- The permits that a provider has out, and what taking and giving back one does to their number.
use openbotflow.Prelude.{
  ℕ, ◌+◌, ◌≡◌, refl, sym, ap, subst, false, ◌∙◌, inl, inr, Option, none, some, List, arith, nat_key,
  ◌==◌, same_nat_iff, if◌then◌else◌, Bool-cases, Option-cases, or_else,
}
use openbotflow.Prelude.Assoc.{get, put, get-put, get-put_self}
use openbotflow.Runtime.{Semaphore, Shared, Env}
use openbotflow.Call.{ensure_provider_semaphore, hold, let_go, change_permit, acquire, release}
use openbotflow.Call.Laws.{IsQuiet}

abbrev pub Semaphores : Type 0
Semaphores = List (ℕ × Option Semaphore)

abbrev pub permits_of : Option (Option Semaphore) → ℕ
permits_of (some (some sem)) = sem.held
permits_of _ = 0

-- How many permits of a provider are taken.
abbrev pub held : ℕ → Semaphores → ℕ
held provider table = permits_of (get provider table)

-- Is the permit the provider's?
abbrev pub own : ℕ → Option ℕ → ℕ
own provider none = 0
own provider (some id) = if id == provider then 1 else 0

-- The semaphore is in the table.
abbrev pub IsReady : Option ℕ → Semaphores → Type 0
IsReady none table = Unit
IsReady (some id) table = (sem : Semaphore) × (get id table ≡ some (some sem))

-- Over the permits of `base`, just that one is taken.
abbrev pub Holds : Semaphores → Option ℕ → Semaphores → Type 0
Holds base permit table = (p : ℕ) → held p table ≡ held p base + own p permit

change_permit_found :
    (id : ℕ) (f : Option Semaphore → Option Semaphore) (table : Semaphores) (v : Option Semaphore)
    → get id table ≡ some v
    → change_permit id f table ≡ put id (f v) table
change_permit_found id f table v e = ground (arith, e)

held_put :
    (p id : ℕ) (v : Option Semaphore) (table : Semaphores)
    → held p (put id v table) ≡ permits_of (if id == p then some v else get p table)
held_put p id v table = ap permits_of (get-put id p v table)

-- One count changes, the others stay.
put-Holds :
    (base : Semaphores) (before after : Option ℕ) (id : ℕ) (v : Option Semaphore)
    (table : Semaphores)
    → Holds base before table
    → permits_of (some v) ≡ held id base + own id after
    → ((p : ℕ) → (id == p) ≡ false → own p before ≡ own p after)
    → Holds base after (put id v table)
put-Holds base before after id v table h mine others p =
    held_put p id v table ∙ elim (Bool-cases (id == p)) [
      | inl same ↦ rw same (rw (sym ((same_nat_iff id p).0 same)) mine)
      | inr other ↦ rw other (h p ∙ ap (λ x. held p base + x) (others p other))
    ]

own_self : (id : ℕ) → own id (some id) ≡ 1
own_self id = rw ((same_nat_iff id id).1 refl) refl

own_other : (p id : ℕ) → (id == p) ≡ false → own p none ≡ own p (some id)
own_other p id e = rw e refl

Holds-hold :
    (base : Semaphores) (id : ℕ) (table : Semaphores)
    → IsReady (some id) table
    → Holds base none table
    → Holds base (some id) (change_permit id hold table)
Holds-hold base id table (sem, found) h =
    let count : held id table ≡ sem.held = ap permits_of found in
    subst (Holds base (some id)) (sym (change_permit_found id hold table (some sem) found)) (
      put-Holds base none (some id) id (hold (some sem)) table h
        (omega (arith, count, h id, own_self id)) (λ p e. own_other p id e))

Holds-let_go :
    (base : Semaphores) (id : ℕ) (table : Semaphores)
    → Holds base (some id) table
    → Holds base none (change_permit id let_go table)
Holds-let_go base id table h = elim (Option-cases (get id table)) [
  | inl missing ↦
      let count : held id table ≡ 0 = ap permits_of missing in
      absurd (omega (arith, count, h id, own_self id))
  | inr (none, unlimited) ↦
      let count : held id table ≡ 0 = ap permits_of unlimited in
      absurd (omega (arith, count, h id, own_self id))
  | inr (some sem, found) ↦
      let count : held id table ≡ sem.held = ap permits_of found in
      subst (Holds base none) (sym (change_permit_found id let_go table (some sem) found)) (
        put-Holds base (some id) none id (let_go (some sem)) table h
          (omega (arith, count, h id, own_self id)) (λ p e. sym (own_other p id e)))
]

module _ {W : Type 0} (env : Env W) (q : IsQuiet env) (base : Semaphores) where
  pub acquire-Holds :
      (permit : Option ℕ) (s : Shared W)
      → IsReady permit s.semaphores
      → Holds base none s.semaphores
      → Holds base permit (acquire env permit s).semaphores
  unfolding acquire
  acquire-Holds none s ready h = h
  acquire-Holds (some id) s ready h =
      rw (q.permit_semaphores id s) (Holds-hold base id s.semaphores ready h)

  pub release-Holds :
      (permit : Option ℕ) (s : Shared W)
      → Holds base permit s.semaphores
      → Holds base none (release env permit s).semaphores
  unfolding release
  release-Holds none s h = h
  release-Holds (some id) s h = Holds-let_go base id s.semaphores h

-- No entry, or one without a limit: a new entry, with no permit taken.
ensure_new :
    (id size : ℕ) (table : Semaphores)
    → or_else (get id table) none ≡ none
    → ensure_provider_semaphore id size table ≡ (
        if size == 0
        then (none, put id none table)
        else (some id, put id (some (record { size = size; held = 0 })) table))
unfolding ensure_provider_semaphore
ensure_new id size table e = ground (arith, e)

ensure_known :
    (id size : ℕ) (table : Semaphores) (sem : Semaphore)
    → or_else (get id table) none ≡ some sem
    → ensure_provider_semaphore id size table ≡ (some id, table)
unfolding ensure_provider_semaphore
ensure_known id size table sem e = ground (arith, e)

abbrev Provided : Semaphores → Option ℕ × Semaphores → Type 0
Provided base r = Holds base none r.1 × IsReady r.0 r.1

new-Provided :
    (base : Semaphores) (id size : ℕ) (table : Semaphores)
    → Holds base none table
    → or_else (get id table) none ≡ none
    → held id table ≡ 0
    → Provided base (ensure_provider_semaphore id size table)
new-Provided base id size table h e zero_held =
    subst (Provided base) (sym (ensure_new id size table e)) (elim (Bool-cases (size == 0)) [
      | inl unlimited ↦ rw unlimited (
        put-Holds base none none id none table h (omega (arith, zero_held, h id)) (λ p f. refl),
        tt,
      )
      | inr limited ↦
          let sem : Semaphore = record { size = size; held = 0 } in
          rw limited (
            put-Holds base none none id (some sem) table h (omega (arith, zero_held, h id))
                (λ p f. refl),
            (sem, get-put_self id (some sem) table),
          )
    ])

pub ensure-Holds :
    (base : Semaphores) (id size : ℕ) (table : Semaphores)
    → Holds base none table
    → Holds base none (ensure_provider_semaphore id size table).1
      × IsReady
          (ensure_provider_semaphore id size table).0
          (ensure_provider_semaphore id size table).1
ensure-Holds base id size table h = elim (Option-cases (get id table)) [
  | inl missing ↦
      new-Provided base id size table h (ap (λ o. or_else o none) missing) (ap permits_of missing)
  | inr (none, off) ↦
      new-Provided base id size table h (ap (λ o. or_else o none) off) (ap permits_of off)
  | inr (some sem, found) ↦
      subst (Provided base) (sym (ensure_known id size table sem (ap (λ o. or_else o none) found)))
        (h, (sem, found))
]
