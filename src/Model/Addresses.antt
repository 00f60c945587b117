-- ===== src/Model/Addresses.antt =====
-- The functions of src/libfcimodels.h by their names, and the addresses that `resolve` finds for them.
use mathlib.Core.Path.{subst}
use libfranka.Prelude.{
  ok_injective, ◌<>◌, ◌++◌, ◌≡◌, ◌∙◌, refl, sym, ap, String, List, [], ◌∷◌, Result, ok, raise,
  running, after-eq-ok, eq_of_fst,
}
use libfranka.Exceptions.{Exception}
use libfranka.Model.Loader.{
  LibraryError, LibrarySystem, symbol_failure, caught, get_symbol, or_unload, resolve,
}

-- The names that src/libfcimodels.h declares: the body Jacobians of the seven joints, the flange and the
-- end effector, the mass matrix, the Jacobians and the poses in the base frame, the Coriolis and the
-- gravity vector.
abbrev pub numbered : String → List String
numbered name =
    (name <> "1")
    ∷ (name <> "2")
    ∷ (name <> "3")
    ∷ (name <> "4")
    ∷ (name <> "5")
    ∷ (name <> "6")
    ∷ (name <> "7")
    ∷ (name <> "8")
    ∷ (name <> "9")
    ∷ []

abbrev pub declared : List String
declared =
    numbered "Ji_J_J"
    ++ ("M_NE" ∷ (numbered "O_J_J" ++ (numbered "O_T_J" ++ ("c_NE" ∷ "g_NE" ∷ []))))

caught-ok :
    {F A : Type 0} (failure : LibraryError → Exception F) (r : Result LibraryError A) {a : A}
    → caught failure r ≡ ok a
    → r ≡ ok a
caught-ok failure (ok a) e = ap ok (ok_injective e)
caught-ok failure (raise x) e = absurd (cc)
caught-ok failure running e = absurd (cc)

module _ {S P F : Type 0} (w : LibrarySystem S P F) where
  -- The loader, asked for the names in their order from the state `s` on, gives these addresses.
  abbrev pub Resolves : List String → List P → S → S → Type 0
  Resolves [] [] s t = s ≡ t
  Resolves [] (p ∷ ps) s t = ⊥
  Resolves (name ∷ names) [] s t = ⊥
  Resolves (name ∷ names) (p ∷ ps) s t =
      (u : S) × (w.get_symbol name s ≡ (ok p, u)) × Resolves names ps u t

module _ {S P F : Type 0} (w : LibrarySystem S P F) where
  or_unload-ok :
      (r : Result (Exception F) P) (s : S) {p : P}
      → (or_unload w r s).0 ≡ ok p
      → (r ≡ ok p) × ((or_unload w r s).1 ≡ s)
  unfolding or_unload
  or_unload-ok (ok p) s e = (e, refl)
  or_unload-ok (raise x) s e = absurd (cc)
  or_unload-ok running s e = absurd (cc)

  -- The address of each name.
  pub resolve-Resolves :
      (names : List String) (s t : S) (ps : List P)
      → resolve w names s ≡ (ok ps, t)
      → Resolves w names ps s t
  unfolding resolve get_symbol
  resolve-Resolves [] s t [] e = ap (λ (r : Result (Exception F) (List P) × S). r.1) e
  resolve-Resolves [] s t (p ∷ ps) e = absurd (let k = ok_injective (ap (λ r. r.0) e) in cc)
  resolve-Resolves (name ∷ names) s t ps e =
      let r = get_symbol w name s in
      let (p, e₁, k₁) = after-eq-ok (or_unload w r.0 r.1) _ e in
      let (got, kept) = or_unload-ok r.0 r.1 e₁ in
      let u = (w.get_symbol name s).1 in
      let found =
        eq_of_fst (w.get_symbol name s) (caught-ok symbol_failure (w.get_symbol name s).0 got) in
      let (qs, e₂, k₂) = after-eq-ok (resolve w names (or_unload w r.0 r.1).1) _ k₁ in
      let last : (resolve w names u).1 ≡ t =
        ap (λ x. (resolve w names x).1) (sym kept)
        ∙ ap (λ (x : Result (Exception F) (List P) × S). x.1) k₂ in
      let rest =
        resolve-Resolves names u (resolve w names u).1 qs
          (eq_of_fst (resolve w names u) (ap (λ x. (resolve w names x).0) (sym kept) ∙ e₂)) in
      subst (λ l. Resolves w (name ∷ names) l s t) (ok_injective (ap (λ x. x.0) k₂))
        (u, found, subst (Resolves w names qs u) last rest)
