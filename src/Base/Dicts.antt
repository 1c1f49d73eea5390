-- ===== src/Base/Dicts.antt =====
-- Python `dict` with text keys, in insertion order.
use mathlib.Core.Path.{◌≡◌, refl, sym, ◌∙◌, subst, subst₂}
use mathlib.Core.Bool.{Bool, true, false}
use mathlib.Core.Option
use mathlib.Core.Option.{Option, none, some, some-injective}
use mathlib.Core.List.{List, [], ◌∷◌}
use native.Mathlib.Omega.{arith}
use ai_bobnet.Base.Tests.{if◌then◌else◌}
use ai_bobnet.Base.Strings.{Text, text_eq, text_eq_iff}

abbrev pub Dict {ℓ} : Type ℓ → Type ℓ
Dict V = List (Text × V)

module _ {ℓ} {V : Type ℓ} where
  -- `d.get(k)`
  unfoldable pub lookup : Text → Dict V → Option V
  lookup k [] = none
  lookup k ((j, v) ∷ d) = if text_eq j k then some v else lookup k d

  -- `k in d`
  unfoldable pub contains : Text → Dict V → Bool
  contains k d = elim (lookup k d) [ none ↦ false | some _ ↦ true ]

  -- `d[k] = v`
  unfoldable pub insert : Text → V → Dict V → Dict V
  insert k v [] = (k, v) ∷ []
  insert k v ((j, w) ∷ d) = if text_eq j k then (j, v) ∷ d else (j, w) ∷ insert k v d

  -- `d.values()`
  unfoldable pub values : Dict V → List V
  values [] = []
  values ((k, v) ∷ d) = v ∷ values d

  -- every value replaced by its image
  unfoldable pub map_values : (V → V) → Dict V → Dict V
  map_values f [] = []
  map_values f ((k, v) ∷ d) = (k, f v) ∷ map_values f d

  pub lookup-insert :
      (k j : Text) (v : V) (d : Dict V)
      → lookup j (insert k v d) ≡ (if text_eq k j then some v else lookup j d)
  unfolding lookup insert
  lookup-insert k j v [] = refl
  lookup-insert k j v ((i, w) ∷ d) =
      ground (arith, text_eq_iff k j, text_eq_iff i k, text_eq_iff i j, lookup-insert k j v d)

  pub lookup-map_values :
      (f : V → V) (k : Text) (d : Dict V) → lookup k (map_values f d) ≡ Option.map f (lookup k d)
  unfolding lookup map_values
  lookup-map_values f k [] = refl
  lookup-map_values f k ((j, v) ∷ d) = ground (arith, lookup-map_values f k d)

-- What holds of the value that is written, and of all that was there, holds after the write.
pub insert_ind {ℓ κ} :
    {V : Type ℓ} (P : Text → V → Type κ) (k : Text) (v : V) (d : Dict V)
    → P k v
    → ((j : Text) (w : V) → lookup j d ≡ some w → P j w)
    → (j : Text) (w : V) → lookup j (insert k v d) ≡ some w
    → P j w
insert_ind P k v d new old j w found = go (text_eq k j) refl (sym (lookup-insert k j v d) ∙ found)
  where
    go : (b : Bool) → text_eq k j ≡ b → (if b then some v else lookup j d) ≡ some w → P j w
    go true same q = subst₂ P ((text_eq_iff k j).0 same) (some-injective v w q) new
    go false other q = old j w q

-- What holds of every image holds of the values after `map_values`.
pub map_values_ind {ℓ κ} :
    {V : Type ℓ} (P : Text → V → Type κ) (f : V → V) (d : Dict V)
    → ((j : Text) (w : V) → lookup j d ≡ some w → P j (f w))
    → (j : Text) (w : V) → lookup j (map_values f d) ≡ some w
    → P j w
map_values_ind {V = V} P f d image j w found =
    go (lookup j d) refl (sym (lookup-map_values f j d) ∙ found)
  where
    go : (o : Option V) → lookup j d ≡ o → Option.map f o ≡ some w → P j w
    go none p q = cc
    go (some v) p q = subst (P j) (some-injective (f v) w q) (image j v p)
