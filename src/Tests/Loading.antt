-- ===== src/Tests/Loading.antt =====
-- A robot whose library lacks one function. The state counts the calls of `unload`.
use libfranka.Prelude.{ℕ, ◌+◌, ◌≡◌, refl, true, some, [], ◌∷◌, ok, raise, if◌then◌else◌}
use libfranka.Exceptions.{model}
use libfranka.Model.{
  LibraryError, Architecture, System, LibrarySystem, download, load, get_symbol, or_unload, resolve,
  model_library,
}
use libfranka.Model.Exceptions.{IsBuilt, model_library-IsBuilt}
use libfranka.Tests.Script.{success}
use text.Mathlib.Text.{◌==◌}

abbrev lacking : LibrarySystem ℕ ℕ ℕ
lacking = record {
  tcp_send_request = λ a o s. (ok 7, s);
  tcp_blocking_receive_response = λ id s. (ok (success, 1 ∷ 2 ∷ []), s);
  write = λ bytes s. (true, s);
  remove = λ s. s;
  load = λ s. (ok tt, s);
  unload = λ s. s + 1;
  get_symbol =
      λ name s. (if name == "g_NE" then raise (LibraryError.not_found "g_NE") else ok 3, s);
}

lacking_unloads :
    model_library lacking (some Architecture.x64) (some System.linux) 0
    ≡ (raise (model "libfranka: Symbol cannot be found: g_NE"), 1)
unfolding model_library download load get_symbol or_unload resolve
lacking_unloads = refl

abbrev whole : LibrarySystem ℕ ℕ ℕ
whole = record lacking { get_symbol = λ name s. (ok 3, s) }

model_library-IsBuilt_example :
    IsBuilt whole
      (λ e. ⊥)
      (some Architecture.x64)
      (some System.linux)
      0
      (model_library whole (some Architecture.x64) (some System.linux) 0)
model_library-IsBuilt_example =
    model_library-IsBuilt whole (λ e. ⊥) (some Architecture.x64) (some System.linux) 0 (λ a o u. tt)
      (λ id u. tt)
