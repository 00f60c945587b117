-- ===== src/Connection/Library.antt =====
-- `Robot::Impl::loadModel` of src/robot_impl.cpp: the library of the model comes over the connection
-- of the robot.
use libfranka.Prelude.{ℕ, String, Bool, Option, List, drop, Method, pure, ◌>>=◌}
use libfranka.Interface.{Response}
use libfranka.Exceptions.{Exception}
use libfranka.Tcp.{Socket, Header, Tcp, tcp_send_request, tcp_blocking_receive_response}
use libfranka.Model.{Architecture, System, LibraryError, LibrarySystem, model_library}

-- `LoadModelLibrary` in memory: the bytes of a request, the size of `Message<Response>`, and the
-- response of the bytes of a message.
pub record LibraryLayout : Type 0 where
  pub header : Header
  pub request_bytes : Architecture → System → (command_id : ℕ) → List ℕ
  pub message_size : ℕ
  pub response_of : List ℕ → Response

-- The temporary file and the loader of the system, over their states `L`.
pub record FileSystem (L P : Type 0) : Type 0 where
  pub write : List ℕ → L → Bool × L
  pub remove : L → L
  pub load : Method LibraryError L (Unit {0})
  pub unload : L → L
  pub get_symbol : String → Method LibraryError L P

-- The channel and the files.
pub record Download (S L : Type 0) : Type 0 where
  pub tcp : Tcp S
  pub files : L

module _ {S L E B : Type 0} where
  abbrev over_channel : Method E (Tcp S) B → Method E (Download S L) B
  over_channel m x = ((m x.tcp).0, record x { tcp = (m x.tcp).1 })

  abbrev over_files : Method E L B → Method E (Download S L) B
  over_files m x = ((m x.files).0, record x { files = (m x.files).1 })

module _ {S L P F : Type 0} (fuel : ℕ) (layout : LibraryLayout) (socket : Socket S)
    (files : FileSystem L P) where
  -- The data behind the response, which is written into `vl_buffer`.
  abbrev pub connected : LibrarySystem (Download S L) P F
  connected = record {
    tcp_send_request = λ a o. over_channel (tcp_send_request socket (layout.request_bytes a o));
    tcp_blocking_receive_response = λ id. over_channel (
        tcp_blocking_receive_response socket fuel layout.header layout.message_size id
        >>= λ message. pure (layout.response_of message, drop layout.message_size message));
    write = λ bytes x.
        ((files.write bytes x.files).0, record x { files = (files.write bytes x.files).1 });
    remove = λ x. record x { files = files.remove x.files };
    load = over_files files.load;
    unload = λ x. record x { files = files.unload x.files };
    get_symbol = λ name. over_files (files.get_symbol name);
  }

  unfoldable pub load_model :
      Option Architecture → Option System → Method (Exception F) (Download S L) (List P)
  load_model = model_library connected
