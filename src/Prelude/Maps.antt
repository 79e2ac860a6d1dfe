-- ===== src/Prelude/Maps.antt =====
-- `std::collections::HashMap` as the program uses it: an association list over a key whose
-- equality is decided. `insert` replaces, `remove` deletes, and the order of iteration carries no
-- meaning.
use Prim.Native.Nat.{◌≤◌}
use mathlib.Core.Path.{◌≡◌, refl, sym, ◌∙◌, subst}
use mathlib.Core.Logic.{ite, if_pos, if_neg}
use mathlib.Core.Bool.{Bool, true, false}
use mathlib.Core.Option.{Option, none, some}
use mathlib.Core.List.{List, [], ◌∷◌}
use native.Mathlib.Omega.{arith}
use netpoke.Prelude.Lists.{length}
use netpoke.Prelude.Tests.{if◌then◌else◌}

abbrev pub Map {ℓ} : Type ℓ → Type ℓ → Type ℓ
Map K V = List (K × V)

module _ {K : Type 0} (d : Discrete K) where
  abbrev is_in : K → List K → Bool
  is_in k [] = false
  is_in k (j ∷ js) = ite (d j k) true (is_in k js)

module _ {K V : Type 0} where
  -- The keys whose values pass a test, and the map without them.
  unfoldable pub keys_where : (V → Bool) → Map K V → List K
  keys_where p [] = []
  keys_where p ((j, w) ∷ m) = if p w then j ∷ keys_where p m else keys_where p m

-- The value of a key, if it fails the test.
abbrev pub unless : {V : Type 0} → (V → Bool) → Option V → Option V
unless p none = none
unless p (some v) = if p v then none else some v

module _ {K V : Type 0} (d : Discrete K) where
  unfoldable pub lookup : K → Map K V → Option V
  lookup k [] = none
  lookup k ((j, v) ∷ m) = ite (d j k) (some v) (lookup k m)

  unfoldable pub insert : K → V → Map K V → Map K V
  insert k v [] = (k, v) ∷ []
  insert k v ((j, w) ∷ m) = ite (d j k) ((k, v) ∷ m) ((j, w) ∷ insert k v m)

  unfoldable pub remove : K → Map K V → Map K V
  remove k [] = []
  remove k ((j, w) ∷ m) = ite (d j k) (remove k m) ((j, w) ∷ remove k m)

  pub lookup-insert :
      (k j : K) (v : V) (m : Map K V) → lookup j (insert k v m) ≡ ite (d k j) (some v) (lookup j m)
  unfolding lookup insert
  lookup-insert k j v [] = refl
  lookup-insert k j v ((i, w) ∷ m) = ground (arith, lookup-insert k j v m)

  pub lookup-remove :
      (k j : K) (m : Map K V) → lookup j (remove k m) ≡ ite (d k j) none (lookup j m)
  unfolding lookup remove
  lookup-remove k j [] = ground arith
  lookup-remove k j ((i, w) ∷ m) = ground (arith, lookup-remove k j m)

  pub lookup-insert_self : (k : K) (v : V) (m : Map K V) → lookup k (insert k v m) ≡ some v
  lookup-insert_self k v m = ground (arith, lookup-insert k k v m)

  pub lookup-remove_self : (k : K) (m : Map K V) → lookup k (remove k m) ≡ none
  lookup-remove_self k m = ground (arith, lookup-remove k k m)

  pub length-remove_le : (k : K) (m : Map K V) → length (remove k m) ≤ length m
  unfolding remove
  length-remove_le k [] = omega arith
  length-remove_le k ((j, w) ∷ m) = ground (arith, length-remove_le k m)

  pub remove-remove : (k : K) (m : Map K V) → remove k (remove k m) ≡ remove k m
  unfolding remove
  remove-remove k [] = refl
  remove-remove k ((j, w) ∷ m) = ground (arith, remove-remove k m)

  -- Each key once: what a hash map is.
  abbrev pub IsUnique : Map K V → Type 0
  IsUnique [] = Unit
  IsUnique ((j, w) ∷ m) = (lookup j m ≡ none) × IsUnique m

  pub insert-IsUnique : (k : K) (v : V) (m : Map K V) → IsUnique m → IsUnique (insert k v m)
  unfolding lookup insert
  insert-IsUnique k v [] u = (refl, tt)
  insert-IsUnique k v ((j, w) ∷ m) u = elim (d j k) [
    | yes p ↦ rw (if_pos (d j k) p) (subst (λ i. lookup i m ≡ none) p u.0, u.1)
    | no n ↦ rw (if_neg (d j k) n) (kept (λ e. n (sym e)), insert-IsUnique k v m u.1)
  ]
    where
      kept : (k ≡ j → ⊥) → lookup j (insert k v m) ≡ none
      kept n = lookup-insert k j v m ∙ if_neg (d k j) n _ _ ∙ u.0

  pub remove-IsUnique : (k : K) (m : Map K V) → IsUnique m → IsUnique (remove k m)
  unfolding lookup remove
  remove-IsUnique k [] u = tt
  remove-IsUnique k ((j, w) ∷ m) u = elim (d j k) [
    | yes p ↦ rw (if_pos (d j k) p) (remove-IsUnique k m u.1)
    | no n ↦ rw (if_neg (d j k) n) (kept (λ e. n (sym e)), remove-IsUnique k m u.1)
  ]
    where
      kept : (k ≡ j → ⊥) → lookup j (remove k m) ≡ none
      kept n = lookup-remove k j m ∙ if_neg (d k j) n _ _ ∙ u.0

  -- Many removals.
  unfoldable pub remove_all : List K → Map K V → Map K V
  remove_all [] m = m
  remove_all (k ∷ ks) m = remove_all ks (remove k m)

  pub remove_all-IsUnique : (ks : List K) (m : Map K V) → IsUnique m → IsUnique (remove_all ks m)
  unfolding remove_all
  remove_all-IsUnique [] m u = u
  remove_all-IsUnique (k ∷ ks) m u = remove_all-IsUnique ks (remove k m) (remove-IsUnique k m u)

  lookup-remove_all :
      (k : K) (ks : List K) (m : Map K V)
      → lookup k (remove_all ks m) ≡ (if is_in d k ks then none else lookup k m)
  unfolding remove_all
  lookup-remove_all k [] m = refl
  lookup-remove_all k (j ∷ js) m =
      lookup-remove_all k js (remove j m) ∙ ground (arith, lookup-remove j k m)

  is_in-keys_where :
      (p : V → Bool) (k : K) (m : Map K V) → lookup k m ≡ none → is_in d k (keys_where p m) ≡ false
  unfolding lookup keys_where
  is_in-keys_where p k [] h = refl
  is_in-keys_where p k ((j, w) ∷ m) h = ground (arith, is_in-keys_where p k m)

  keys_where-unless :
      (p : V → Bool) (k : K) (m : Map K V)
      → IsUnique m
      → (if is_in d k (keys_where p m) then none else lookup k m) ≡ unless p (lookup k m)
  unfolding lookup keys_where
  keys_where-unless p k [] u = refl
  keys_where-unless p k ((j, w) ∷ m) u = elim (d j k) [
    | yes e ↦
        subst
          (λ i.
            (if is_in d i (keys_where p ((j, w) ∷ m)) then none else lookup i ((j, w) ∷ m))
            ≡ unless p (lookup i ((j, w) ∷ m)))
          e (ground (arith, is_in-keys_where p j m u.0))
    | no n ↦ ground (arith, keys_where-unless p k m u.1)
  ]

  -- Removing the keys whose values pass a test leaves each other key as it was.
  pub lookup-remove_all-keys_where :
      (p : V → Bool) (k : K) (m : Map K V)
      → IsUnique m
      → lookup k (remove_all (keys_where p m) m) ≡ unless p (lookup k m)
  lookup-remove_all-keys_where p k m u =
      lookup-remove_all k (keys_where p m) m ∙ keys_where-unless p k m u
