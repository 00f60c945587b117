-- ===== src/Model/Exceptions.antt =====
-- What escapes the constructor of `ModelLibrary`, and what it leaves loaded.
use libfranka.Prelude.{
  ℕ, ◌==◌, ◌≡◌, ◌∙◌, ◌⊎◌, inl, inr, refl, sym, ap, String, not, Option, none, some, List, [], ◌∷◌,
  Result, ok, raise, running, pure, after, after-eq-ok, after-run, eq_of_fst, ◌>>=◌, ◌>>◌,
}
use libfranka.Exceptions.{Exception, model}
use libfranka.Model.Loader.{
  LibraryError, Architecture, System, LibrarySystem, load_failure, symbol_failure, symbols, caught,
  supported, download, load, get_symbol, or_unload, resolve, model_library,
}
use libfranka.Model.Raises.{Raises, Throws, after-Raises, weaken, ◌⊳◌, throw_if-Throws}
use libfranka.Model.Addresses.{declared, Resolves, resolve-Resolves}

abbrev pub IsModel : {F : Type 0} → Exception F → Type 0
IsModel e = (what : String) × (e ≡ model what)

module _ {S P F : Type 0} (w : LibrarySystem S P F) where
  -- What comes of the constructor: the library was downloaded and loaded and its functions have these
  -- addresses, or an exception as told.
  abbrev pub IsBuilt :
      (N : Exception F → Type 0) (architecture : Option Architecture) (system : Option System)
      (s : S)
      → Result (Exception F) (List P) × S
      → Type 0
  IsBuilt N architecture system s (ok ps, t) =
      (u v : S) × (download w architecture system s ≡ (ok tt, u))
      × (load w u ≡ (ok tt, v))
      × Resolves w declared ps v t
  IsBuilt N architecture system s (raise e, t) = IsModel e ⊎ N e
  IsBuilt N architecture system s (running, t) = Unit

caught-Raises :
    {F A : Type 0} (P : Exception F → Type 0) (failure : LibraryError → Exception F)
    (r : Result LibraryError A)
    → ((e : LibraryError) → P (failure e))
    → Raises P (caught failure r)
caught-Raises P failure (ok a) h = tt
caught-Raises P failure (raise e) h = h e
caught-Raises P failure running h = tt

supported-Throws :
    {F S A : Type 0} (P : Exception F → Type 0) (what : String) (o : Option A)
    → P (model what)
    → Throws {S = S} P (supported what o)
supported-Throws P what none p = record { only = λ s. p }
supported-Throws P what (some a) p = record { only = λ s. tt }

load_failure-IsModel : {F : Type 0} (e : LibraryError) → IsModel {F = F} (load_failure e)
load_failure-IsModel (LibraryError.already_loaded what) = (_, refl)
load_failure-IsModel (LibraryError.load_error what) = (_, refl)
load_failure-IsModel (LibraryError.not_found what) = (_, refl)
load_failure-IsModel (LibraryError.other what) = (_, refl)

symbol_failure-IsModel : {F : Type 0} (e : LibraryError) → IsModel {F = F} (symbol_failure e)
symbol_failure-IsModel (LibraryError.already_loaded what) = (_, refl)
symbol_failure-IsModel (LibraryError.load_error what) = (_, refl)
symbol_failure-IsModel (LibraryError.not_found what) = (_, refl)
symbol_failure-IsModel (LibraryError.other what) = (_, refl)

module _ {S P F : Type 0} (w : LibrarySystem S P F) where
  -- An address, or the exception behind which the library was unloaded.
  or_unload-Raises :
      (Q : Exception F → Type 0) (r : Result (Exception F) P) (s : S)
      → Raises Q r
      → Raises Q (or_unload w r s).0
  unfolding or_unload
  or_unload-Raises Q (ok p) s h = tt
  or_unload-Raises Q (raise e) s h = h
  or_unload-Raises Q running s h = tt

  resolve-Raises :
      (Q : Exception F → Type 0) (names : List String) (s : S)
      → ((e : LibraryError) → Q (symbol_failure e))
      → Raises Q (resolve w names s).0
  unfolding resolve get_symbol
  resolve-Raises Q [] s h = tt
  resolve-Raises Q (name ∷ names) s h =
      after-Raises Q _ _ _
        (or_unload-Raises Q _ _ (caught-Raises Q symbol_failure (w.get_symbol name s).0 h))
        λ p. after-Raises Q _ _ _ (resolve-Raises Q names _ h) λ ps. tt

  -- An exception of a name unloads the library, and nothing follows.
  resolve-unload :
      (names : List String) (s t : S) {e : Exception F}
      → resolve w names s ≡ (raise e, t)
      → (u : S) × (t ≡ w.unload u)
  unfolding resolve or_unload
  resolve-unload [] s t h = absurd (cc)
  resolve-unload (name ∷ names) s t {e} h =
      behind (λ u x f q. resolve-unload names u x {e = f} q) (get_symbol w name s).1
        (get_symbol w name s).0 h
    where
      again :
          (r : Result (Exception F) (List P) × S) (p : P)
          → ((f : Exception F) → r ≡ (raise f, r.1) → (v : S) × (r.1 ≡ w.unload v))
          → after r.0 r.1 (λ ps. pure (p ∷ ps)) ≡ (raise e, t)
          → (v : S) × (t ≡ w.unload v)
      again (ok ps, x) p rest k = absurd (cc)
      again (raise f, x) p rest k =
          let (v, unloads) = rest f refl in (v, ap (λ y. y.1) (sym k) ∙ unloads)
      again (running, x) p rest k = absurd (cc)

      behind :
          ((u x : S) (f : Exception F)
            → resolve w names u ≡ (raise f, x)
            → (v : S) × (x ≡ w.unload v))
          → (u : S) (r : Result (Exception F) P)
          → after
              (or_unload w r u).0
              (or_unload w r u).1
              (λ p. resolve w names >>= λ ps. pure (p ∷ ps))
            ≡ (raise e, t)
          → (v : S) × (t ≡ w.unload v)
      behind rest u (ok p) k =
          again (resolve w names u) p (λ f q. rest u (resolve w names u).1 f q) k
      behind rest u (raise f) k = (u, ap (λ y. y.1) (sym k))
      behind rest u running k = absurd (cc)

  download-Throws :
      (Q : Exception F → Type 0) (architecture : Option Architecture) (system : Option System)
      → ((what : String) → Q (model what))
      → ((a : Architecture) (o : System) (u : S) → Raises Q (w.tcp_send_request a o u).0)
      → ((id : ℕ) (u : S) → Raises Q (w.tcp_blocking_receive_response id u).0)
      → Throws Q (download w architecture system)
  unfolding download
  download-Throws Q architecture system known sends receives =
      ◌⊳◌ Q (supported-Throws Q "libfranka: Unsupported architecture!" architecture (known _)) λ a.
        ◌⊳◌ Q (supported-Throws Q "libfranka: Unsupported operating system!" system (known _)) λ o.
          ◌⊳◌ Q {m = w.tcp_send_request a o} (record { only = sends a o })
            λ id.
              ◌⊳◌ Q {m = w.tcp_blocking_receive_response id} (record { only = receives id })
                λ answer.
                  ◌⊳◌ Q
                    (throw_if-Throws Q (not (answer.0.status == 0))
                      (model "libfranka: Server reports error when loading model library.")
                      (known _))
                    λ _. record {
                      only = λ s.
                          (throw_if-Throws {S = S} Q (not (w.write answer.1 s).0)
                              (model "libfranka: Cannot save model library.") (known _)).only
                            (w.write answer.1 s).1;
                    }

  -- A constructor that throws behind the load of the file has unloaded the library.
  pub model_library-unload :
      (architecture : Option Architecture) (system : Option System) (s t u v : S) {e : Exception F}
      → download w architecture system s ≡ (ok tt, u)
      → load w u ≡ (ok tt, v)
      → model_library w architecture system s ≡ (raise e, t)
      → (x : S) × (t ≡ w.unload x)
  unfolding model_library
  model_library-unload architecture system s t u v downloaded loaded k =
      resolve-unload symbols v t (
        sym (
          after-run (download w architecture system s) _ downloaded ∙ after-run (load w u) _ loaded)
        ∙ k)

  built :
      (N : Exception F → Type 0) (architecture : Option Architecture) (system : Option System)
      (s : S)
      → (r : Result (Exception F) (List P) × S) → Raises (λ e. IsModel e ⊎ N e) r.0
      → model_library w architecture system s ≡ r
      → IsBuilt w N architecture system s r
  unfolding model_library
  built N architecture system s (ok ps, t) raises e =
      let (_, e₁, k₁) = after-eq-ok (download w architecture system s) _ e in
      let u = (download w architecture system s).1 in
      let (_, e₂, k₂) = after-eq-ok (load w u) _ k₁ in
      let v = (load w u).1 in
      (
        u,
        v,
        eq_of_fst (download w architecture system s) e₁,
        eq_of_fst (load w u) e₂,
        resolve-Resolves w declared v t ps k₂,
      )
  built N architecture system s (raise e, t) raises k = raises
  built N architecture system s (running, t) raises k = tt

  -- Let `N` hold of every exception of the two calls of `Network` that ask for the library. A constructor
  -- of `ModelLibrary` that returns has downloaded and loaded the library, and its addresses are those that
  -- the loader gives for the thirty names of src/libfcimodels.h, asked in their order; an exception that
  -- escapes it is a ModelException or satisfies `N`.
  pub model_library-IsBuilt :
      (N : Exception F → Type 0) (architecture : Option Architecture) (system : Option System)
      (s : S)
      → ((a : Architecture) (o : System) (u : S) → Raises N (w.tcp_send_request a o u).0)
      → ((id : ℕ) (u : S) → Raises N (w.tcp_blocking_receive_response id u).0)
      → IsBuilt w N architecture system s (model_library w architecture system s)
  unfolding model_library load
  model_library-IsBuilt N architecture system s sends receives =
      let Q : Exception F → Type 0 = λ e. IsModel e ⊎ N e in
      let downloads =
        download-Throws Q architecture system (λ what. inl (what, refl))
          (λ a o u. weaken N Q (w.tcp_send_request a o u).0 (λ e p. inr p) (sends a o u))
          (λ id u.
            weaken N Q (w.tcp_blocking_receive_response id u).0 (λ e p. inr p) (receives id u)) in
      let u = (download w architecture system s).1 in
      let v = (load w u).1 in
      built N architecture system s (model_library w architecture system s)
        (after-Raises Q (download w architecture system s).0 u (λ _. load w >> resolve w symbols)
          (downloads.only s)
          λ _.
            after-Raises Q (load w u).0 v (λ _. resolve w symbols)
              (caught-Raises Q load_failure (w.load u).0 (λ e. inl (load_failure-IsModel e)))
              λ _. resolve-Raises Q symbols v (λ e. inl (symbol_failure-IsModel e)))
        refl
