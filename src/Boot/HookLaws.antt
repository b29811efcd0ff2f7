-- ===== src/Boot/HookLaws.antt =====
-- The hooks of BootLaunchApp.c: what the image runs with, and what it leaves behind.
use apple_silicon_platforms.Prelude.{
  ℕ, ◌≡◌, refl, sym, ap, ◌∙◌, Bool, true, false, List, [], ◌∷◌, ◌⊎◌, inl, inr, Bool-cases,
}
use mathlib.Core.Logic.{ite, if_pos, if_neg}
use apple_silicon_platforms.Boot.Hooks.{
  ServiceTable, update_at, hook, unhook, hook_each, unhook_each,
}

module _ {F : Type 0} (same : Discrete F) where
  -- The service is one of the list.
  abbrev pub is_among : F → List F → Bool
  is_among g [] = false
  is_among g (f ∷ fs) = ite (same f g) true (is_among g fs)

  -- No service is twice in the list.
  abbrev pub are_distinct : List F → Bool
  are_distinct [] = true
  are_distinct (f ∷ fs) = elim (is_among f fs) [ true ↦ false | false ↦ are_distinct fs ]

  is_among-false :
      (g f : F) (fs : List F) → is_among g (f ∷ fs) ≡ false → ¬ (f ≡ g) × (is_among g fs ≡ false)
  is_among-false g f fs = pick (same f g)
    where
      pick :
          (d : Dec (f ≡ g))
          → ite d true (is_among g fs) ≡ false
          → ¬ (f ≡ g) × (is_among g fs ≡ false)
      pick (yes p) e = cc
      pick (no n) e = (n, e)

  is_among-true :
      (g f : F) (fs : List F)
      → is_among g (f ∷ fs) ≡ true
      → (f ≡ g) ⊎ (¬ (f ≡ g) × (is_among g fs ≡ true))
  is_among-true g f fs = pick (same f g)
    where
      pick :
          (d : Dec (f ≡ g))
          → ite d true (is_among g fs) ≡ true
          → (f ≡ g) ⊎ (¬ (f ≡ g) × (is_among g fs ≡ true))
      pick (yes p) e = inl p
      pick (no n) e = inr (n, e)

  distinct_cons :
      (f : F) (fs : List F)
      → are_distinct (f ∷ fs) ≡ true
      → (is_among f fs ≡ false) × (are_distinct fs ≡ true)
  distinct_cons f fs = pick (is_among f fs)
    where
      pick :
          (b : Bool)
          → elim b [ true ↦ false | false ↦ are_distinct fs ] ≡ true
          → (b ≡ false) × (are_distinct fs ≡ true)
      pick true e = cc
      pick false e = (refl, e)

  update_at-same : (table : F → ℕ) (f g : F) (v : ℕ) → f ≡ g → update_at same table f v g ≡ v
  unfolding update_at
  update_at-same table f g v p = if_pos (same f g) p v (table g)

  update_at-other :
      (table : F → ℕ) (f g : F) (v : ℕ) → ¬ (f ≡ g) → update_at same table f v g ≡ table g
  unfolding update_at
  update_at-other table f g v n = if_neg (same f g) n v (table g)

  pub hook_each-other :
      (trace : F → ℕ) (fs : List F) (t : ServiceTable F) (g : F)
      → is_among g fs ≡ false
      → ((hook_each same trace fs t).entry g ≡ t.entry g)
        × ((hook_each same trace fs t).saved g ≡ t.saved g)
  unfolding hook_each hook
  hook_each-other trace [] t g e = (refl, refl)
  hook_each-other trace (f ∷ fs) t g e =
      let (n, rest) = is_among-false g f fs e in
      let (entry, saved) = hook_each-other trace fs (hook same trace f t) g rest in
      (
        entry ∙ update_at-other t.entry f g (trace f) n,
        saved ∙ update_at-other t.saved f g (t.entry f) n,
      )

  pub hook_each-hooked :
      (trace : F → ℕ) (fs : List F) (t : ServiceTable F) (g : F)
      → are_distinct fs ≡ true
      → is_among g fs ≡ true
      → ((hook_each same trace fs t).entry g ≡ trace g)
        × ((hook_each same trace fs t).saved g ≡ t.entry g)
  unfolding hook_each hook
  hook_each-hooked trace [] t g d e = cc
  hook_each-hooked trace (f ∷ fs) t g d e =
      let (fresh, rest) = distinct_cons f fs d in
      elim (is_among-true g f fs e) [
        | inl p ↦
            let (entry, saved) =
              hook_each-other trace fs (hook same trace f t) g
                (ap (λ x. is_among x fs) (sym p) ∙ fresh) in
            (
              entry ∙ update_at-same t.entry f g (trace f) p ∙ ap trace p,
              saved ∙ update_at-same t.saved f g (t.entry f) p ∙ ap t.entry p,
            )
        | inr (n, among) ↦
            let (entry, saved) = hook_each-hooked trace fs (hook same trace f t) g rest among in
            (entry, saved ∙ update_at-other t.entry f g (trace f) n)
      ]

  unhook_each-other :
      (fs : List F) (t : ServiceTable F) (g : F)
      → is_among g fs ≡ false
      → (unhook_each same fs t).entry g ≡ t.entry g
  unfolding unhook_each unhook
  unhook_each-other [] t g e = refl
  unhook_each-other (f ∷ fs) t g e =
      let (n, rest) = is_among-false g f fs e in
      unhook_each-other fs (unhook same f t) g rest ∙ update_at-other t.entry f g (t.saved f) n

  unhook_each-hooked :
      (fs : List F) (t : ServiceTable F) (g : F)
      → is_among g fs ≡ true
      → (unhook_each same fs t).entry g ≡ t.saved g
  unfolding unhook_each unhook
  unhook_each-hooked [] t g e = cc
  unhook_each-hooked (f ∷ fs) t g e = elim (Bool-cases (is_among g fs)) [
    | inl among ↦ unhook_each-hooked fs (unhook same f t) g among
    | inr other ↦ elim (is_among-true g f fs e) [
      | inl p ↦
          unhook_each-other fs (unhook same f t) g other
          ∙ update_at-same t.entry f g (t.saved f) p
          ∙ ap t.saved p
      | inr (n, among) ↦ cc
    ]
  ]

  -- What the image has written to a hooked table: its own hooked entries at most, and neither the
  -- saved originals nor a service that is not hooked.
  pub record IsKept (fs : List F) (t t' : ServiceTable F) : Type 0 where
    pub saved : (f : F) → t'.saved f ≡ t.saved f
    pub others : (f : F) → is_among f fs ≡ false → t'.entry f ≡ t.entry f

  pub restored :
      (trace : F → ℕ) (fs : List F) (t t' : ServiceTable F)
      → are_distinct fs ≡ true
      → IsKept fs (hook_each same trace fs t) t'
      → (unhook_each same fs t').entry ≡ t.entry
  restored trace fs t t' d kept = λ i f. at f i
    where
      at : (f : F) → (unhook_each same fs t').entry f ≡ t.entry f
      at f = elim (Bool-cases (is_among f fs)) [
        | inl e ↦
            unhook_each-hooked fs t' f e ∙ kept.saved f ∙ (hook_each-hooked trace fs t f d e).1
        | inr e ↦ unhook_each-other fs t' f e ∙ kept.others f e ∙ (hook_each-other trace fs t f e).0
      ]
