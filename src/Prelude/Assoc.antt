-- ===== src/Prelude/Assoc.antt =====
-- Python's `dict` as an association list in insertion order.
use mathlib.Core.Path.{◌≡◌, refl}
use mathlib.Core.Bool.{Bool, false, ◌||◌}
use mathlib.Core.List.{List, [], ◌∷◌}
use mathlib.Core.Option.{Option, none, some}
use native.Mathlib.Omega.{arith}
use openbotflow.Prelude.Tests.{Key, if◌then◌else◌}

-- `k in keys`
module _ {ℓ} {K : Type ℓ} ⦃e : Key K⦄ where
  unfoldable pub has_key : K → List K → Bool
  has_key k [] = false
  has_key k (j ∷ ks) = e.same j k || has_key k ks

module _ {ℓ κ} {K : Type ℓ} {V : Type κ} ⦃e : Key K⦄ where
  -- d.get(k)
  unfoldable pub get : K → List (K × V) → Option V
  get k [] = none
  get k ((j, v) ∷ m) = if e.same j k then some v else get k m

  -- d[k] = v keeps the place of a key that is there, and appends a new one.
  unfoldable pub put : K → V → List (K × V) → List (K × V)
  put k v [] = (k, v) ∷ []
  put k v ((j, w) ∷ m) = if e.same j k then (k, v) ∷ m else (j, w) ∷ put k v m

  -- d.pop(k, None)
  unfoldable pub remove : K → List (K × V) → List (K × V)
  remove k [] = []
  remove k ((j, v) ∷ m) = let rest = remove k m in if e.same j k then rest else (j, v) ∷ rest

  pub get-put :
      (k j : K) (v : V) (m : List (K × V))
      → get j (put k v m) ≡ (if e.same k j then some v else get j m)
  unfolding get put
  get-put k j v [] = refl
  get-put k j v ((i, w) ∷ m) =
      ground (arith, e.same_iff k j, e.same_iff i k, e.same_iff i j, get-put k j v m)

  pub get-remove :
      (k j : K) (m : List (K × V)) → get j (remove k m) ≡ (if e.same k j then none else get j m)
  unfolding get remove
  get-remove k j [] = ground arith
  get-remove k j ((i, w) ∷ m) =
      ground (arith, e.same_iff k j, e.same_iff i k, e.same_iff i j, get-remove k j m)

  -- Every key has one entry, as in a `dict`.
  abbrev pub IsDict : List (K × V) → Type κ
  IsDict [] = Unit
  IsDict ((k, v) ∷ m) = (get k m ≡ none) × IsDict m

  pub put-IsDict : (k : K) (v : V) (m : List (K × V)) → IsDict m → IsDict (put k v m)
  unfolding put get
  put-IsDict k v [] d = (refl, tt)
  put-IsDict k v ((j, w) ∷ m) d =
      ground (arith, e.same_iff j k, e.same_iff k j, get-put k j v m, put-IsDict k v m)

  pub get-put_self : (k : K) (v : V) (m : List (K × V)) → get k (put k v m) ≡ some v
  get-put_self k v m = rw (get-put k k v m, (e.same_iff k k).1 refl)

  pub put-put : (k : K) (v w : V) (m : List (K × V)) → put k w (put k v m) ≡ put k w m
  unfolding put
  put-put k v w [] = ground (arith, e.same_iff k k)
  put-put k v w ((j, u) ∷ m) = ground (arith, e.same_iff j k, e.same_iff k k, put-put k v w m)

  pub put_self : (k : K) (v : V) (m : List (K × V)) → get k m ≡ some v → put k v m ≡ m
  unfolding put get
  put_self k v [] h = ground arith
  put_self k v ((j, u) ∷ m) h = ground (arith, e.same_iff j k, put_self k v m)

  pub remove-IsDict : (k : K) (m : List (K × V)) → IsDict m → IsDict (remove k m)
  unfolding remove get
  remove-IsDict k [] d = tt
  remove-IsDict k ((j, w) ∷ m) d =
      ground (arith, e.same_iff j k, e.same_iff k j, get-remove k j m, remove-IsDict k m)

  -- for k in keys: d.pop(k, None)
  unfoldable pub remove_all : List K → List (K × V) → List (K × V)
  remove_all [] m = m
  remove_all (k ∷ ks) m = remove_all ks (remove k m)

  pub get-remove_all :
      (ks : List K) (j : K) (m : List (K × V))
      → get j (remove_all ks m) ≡ (if has_key j ks then none else get j m)
  unfolding remove_all has_key
  get-remove_all [] j m = refl
  get-remove_all (k ∷ ks) j m = ground (arith, get-remove_all ks j (remove k m), get-remove k j m)

  pub remove_all-IsDict : (ks : List K) (m : List (K × V)) → IsDict m → IsDict (remove_all ks m)
  unfolding remove_all
  remove_all-IsDict [] m d = d
  remove_all-IsDict (k ∷ ks) m d = remove_all-IsDict ks (remove k m) (remove-IsDict k m d)
