-- ===== src/Model/Loader.antt =====
-- src/library_downloader.cpp, src/library_loader.cpp and the constructor of src/model_library.cpp: the
-- library of the model comes from the robot through a file. The system's files and the class
-- `Poco::SharedLibrary` are parameters.
use libfranka.Prelude.{
  Option, none, some, throw, ℕ, String, ◌<>◌, Bool, not, ◌==◌, List, [], ◌∷◌, Result, ok, raise,
  running, Method, pure, throw_if, ◌>>=◌, ◌>>◌,
}
use libfranka.Interface.{Response}
use libfranka.Exceptions.{Exception, model}

-- The exceptions of `Poco::SharedLibrary` that the loader tells apart, with what their `what` says.
pub data LibraryError : Type 0 where
  already_loaded load_error not_found other : String → LibraryError

-- `LoadModelLibrary::Architecture` and `LoadModelLibrary::System`
pub data Architecture : Type 0 where
  x64 x86 arm arm64 : Architecture

pub data System : Type 0 where
  linux windows : System

-- The world that the downloader and the loader work on: the connection to the robot, whose response is
-- given with the data behind it, the temporary file, and the loader of the system, with `P` for the
-- addresses of functions. `write` is false when the stream throws.
pub record LibrarySystem (S P F : Type 0) : Type 0 where
  pub tcp_send_request : Architecture → System → Method (Exception F) S ℕ
  pub tcp_blocking_receive_response : ℕ → Method (Exception F) S (Response × List ℕ)
  pub write : List ℕ → S → Bool × S
  pub remove : S → S
  pub load : Method LibraryError S (Unit {0})
  pub unload : S → S
  pub get_symbol : String → Method LibraryError S P

-- The `catch` clauses of the constructor of `LibraryLoader` and of `getSymbol`.
abbrev pub load_failure : {F : Type 0} → LibraryError → Exception F
load_failure (already_loaded what) = model "libfranka: Model library already loaded"
load_failure (load_error what) = model ("libfranka: Cannot load model library: " <> what)
load_failure (not_found what) = model ("libfranka: Error while loading library: " <> what)
load_failure (other what) = model ("libfranka: Error while loading library: " <> what)

abbrev pub symbol_failure : {F : Type 0} → LibraryError → Exception F
symbol_failure (already_loaded what) = model ("libfranka: Error while fetching symbols: " <> what)
symbol_failure (load_error what) = model ("libfranka: Error while fetching symbols: " <> what)
symbol_failure (not_found what) = model ("libfranka: Symbol cannot be found: " <> what)
symbol_failure (other what) = model ("libfranka: Error while fetching symbols: " <> what)

abbrev pub caught :
    {F A : Type 0} → (LibraryError → Exception F) → Result LibraryError A → Result (Exception F) A
caught failure (ok a) = ok a
caught failure (raise e) = raise (failure e)
caught failure running = running

-- The names of the functions of the members of `ModelLibrary`.
abbrev pub symbols : List String
symbols =
    "Ji_J_J1" ∷ "Ji_J_J2" ∷ "Ji_J_J3" ∷ "Ji_J_J4" ∷ "Ji_J_J5" ∷ "Ji_J_J6" ∷ "Ji_J_J7" ∷ "Ji_J_J8"
    ∷ "Ji_J_J9" ∷ "M_NE" ∷ "O_J_J1" ∷ "O_J_J2" ∷ "O_J_J3" ∷ "O_J_J4" ∷ "O_J_J5" ∷ "O_J_J6"
    ∷ "O_J_J7" ∷ "O_J_J8" ∷ "O_J_J9" ∷ "O_T_J1" ∷ "O_T_J2" ∷ "O_T_J3" ∷ "O_T_J4" ∷ "O_T_J5"
    ∷ "O_T_J6" ∷ "O_T_J7" ∷ "O_T_J8" ∷ "O_T_J9" ∷ "c_NE" ∷ "g_NE" ∷ []

module _ {F S : Type 0} where
  -- What the preprocessor found, or the `#else` that throws.
  abbrev pub supported : {A : Type 0} → String → Option A → Method (Exception F) S A
  supported message (some a) = pure a
  supported message none = throw (model message)

  -- The response of `LoadModelLibrary`, and the write of the data behind it.
  abbrev pub saved : Bool → Method (Exception F) S (Unit {0})
  saved written = throw_if (not written) (model "libfranka: Cannot save model library.")

module _ {S P F : Type 0} (w : LibrarySystem S P F) where
  -- The constructor of `LibraryDownloader`.
  unfoldable pub download : Option Architecture → Option System → Method (Exception F) S (Unit {0})
  download architecture system = do
    a ← supported "libfranka: Unsupported architecture!" architecture
    o ← supported "libfranka: Unsupported operating system!" system
    command_id ← w.tcp_send_request a o
    answer ← w.tcp_blocking_receive_response command_id
    throw_if (not (answer.0.status == 0))
        (model "libfranka: Server reports error when loading model library.")
    written ← (λ s. (ok (w.write answer.1 s).0, (w.write answer.1 s).1))
    saved written

  -- The constructor of `LibraryLoader` on the file, and the end of the temporary downloader.
  unfoldable pub load : Method (Exception F) S (Unit {0})
  load s = (caught load_failure (w.load s).0, w.remove (w.load s).1)

  unfoldable pub get_symbol : String → Method (Exception F) S P
  get_symbol name s = (caught symbol_failure (w.get_symbol name s).0, (w.get_symbol name s).1)

  -- What the constructor does with the address of a member: an exception destroys `loader_`.
  unfoldable pub or_unload : Result (Exception F) P → Method (Exception F) S P
  or_unload (ok p) s = (ok p, s)
  or_unload (raise e) s = (raise e, w.unload s)
  or_unload running s = (running, s)

  unfoldable pub resolve : List String → Method (Exception F) S (List P)
  unfolding get_symbol or_unload
  resolve [] = pure []
  resolve (name ∷ names) = do
    p ← (λ s. or_unload (get_symbol name s).0 (get_symbol name s).1)
    ps ← resolve names
    pure (p ∷ ps)

  -- The constructor of `ModelLibrary`: the addresses of its members, in their order.
  unfoldable pub model_library :
      Option Architecture → Option System → Method (Exception F) S (List P)
  unfolding download load resolve
  model_library architecture system = do download architecture system; load; resolve symbols
