-- ===== src/App/FileSystem.antt =====
-- What src/storage/io.rs asks of the operating system and of `std::path`.
use dirbase.Prelude.{String, Bool, Option, List}
use dirbase.Error.{Result}

-- `std::io::ErrorKind`, as far as the program looks at it, with the error's text.
pub data IoError : Type 0 where
  not_found already_exists other : String → IoError

abbrev pub io_text : IoError → String
io_text (IoError.not_found text) = text
io_text (IoError.already_exists text) = text
io_text (IoError.other text) = text

pub record FileSystem : Type 1 where
  pub Disk : Type 0
  -- `read_to_string`, `Path::exists`
  pub read_to_string : Disk → String → Result String IoError
  -- `std::fs::read_dir`, and the path of each entry or its error
  pub read_dir : Disk → String → Result (List (Result String IoError)) IoError
  pub exists : Disk → String → Bool
  -- `OpenOptions::new().create_new(true).write(true).open(file)`
  pub create_new : Disk → String → Disk × Result (Unit {0}) IoError
  -- `write_all`, then `flush` and `sync_all`, of an open file
  pub write_all : Disk → String → String → Disk × Result (Unit {0}) IoError
  pub flush : Disk → String → Disk × Result (Unit {0}) IoError
  pub sync_all : Disk → String → Disk × Result (Unit {0}) IoError
  pub rename : Disk → String → String → Disk × Result (Unit {0}) IoError
  pub remove_file : Disk → String → Disk × Result (Unit {0}) IoError
  pub create_dir_all : Disk → String → Disk × Result (Unit {0}) IoError
  -- `OpenOptions::new().create(true).truncate(false).write(true).open(lock)` and `lock_exclusive`
  pub open_lock : Disk → String → Disk × Result (Unit {0}) IoError
  pub lock_exclusive : Disk → String → Disk × Result (Unit {0}) IoError
  pub unlock : Disk → String → Disk
  -- `SystemTime::now` in nanoseconds, and the counter of the temporary files, as the text after `.tmp.`
  pub temp_id : Disk → Disk × String
  -- `Path::parent`, `file_name` as text, `with_file_name`, `join`
  pub parent : String → Option String
  pub file_name : String → Option String
  pub with_file_name : String → String → String
  pub join_path : String → String → String
  pub extension : String → Option String
  pub file_stem : String → Option String
