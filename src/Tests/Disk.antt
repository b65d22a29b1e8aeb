-- ===== src/Tests/Disk.antt =====
-- A disk that is a map from paths to texts.
use dirbase.Prelude.{
  String, true, Option, none, some, [], ◌∷◌, ◌≡◌, refl, sym, ap, ◌∙◌, subst, if◌then◌else◌, map,
}
use dirbase.Prelude.Int.{ℤ}
use dirbase.BTreeMap
use dirbase.BTreeMap.{BTreeMap, get-insert_self}
use dirbase.Json.{Json, as_object, from_object}
use dirbase.Error.{Result, ok, err, ok_or, ok-injective}
use dirbase.Text.{format}
use dirbase.App.FileSystem.{FileSystem, IoError}
use dirbase.App.Action.{proceed}
use dirbase.App.State.{DataSource}
use dirbase.Storage.Io.Files.{read_file, parse_json, map_err}
use dirbase.Storage.Io.Database.{root_object}
use dirbase.Storage.Io.RoundTrip.{IsPrinted, IsRoot, ReadsBack}
use dirbase.Storage.Io.Faithful.{IsFaithful, locked}
use dirbase.Tests.{toy, pretty_text, parse_text}

abbrev renamed :
    BTreeMap String → String → Option String → String → BTreeMap String × Result (Unit {0}) IoError
renamed disk from none file = (disk, err (IoError.not_found "no such file"))
renamed disk from (some text) file = (BTreeMap.insert (BTreeMap.remove disk from) file text, ok tt)

instance abbrev pub toy_disk : FileSystem
toy_disk = record {
  Disk = BTreeMap String;
  read_to_string = λ disk file. ok_or (BTreeMap.get disk file) (IoError.not_found "no such file");
  read_dir = λ disk folder. ok (map ok (BTreeMap.keys disk));
  exists = λ disk file. BTreeMap.contains_key disk file;
  create_new = λ disk file.
      if BTreeMap.contains_key disk file
      then (disk, err (IoError.already_exists "file exists"))
      else (BTreeMap.insert disk file "", ok tt);
  write_all = λ disk file payload. (BTreeMap.insert disk file payload, ok tt);
  flush = λ disk file. (disk, ok tt);
  sync_all = λ disk file. (disk, ok tt);
  rename = λ disk from file. renamed disk from (BTreeMap.get disk from) file;
  remove_file = λ disk file. (BTreeMap.remove disk file, ok tt);
  create_dir_all = λ disk folder. (disk, ok tt);
  open_lock = λ disk lock. (disk, ok tt);
  lock_exclusive = λ disk lock. (disk, ok tt);
  unlock = λ disk lock. disk;
  temp_id = λ disk. (disk, "0-0");
  parent = λ path. none;
  file_name = λ path. some path;
  with_file_name = λ path name. name;
  join_path = λ folder name. format (folder ∷ "/" ∷ name ∷ []);
  extension = λ path. none;
  file_stem = λ path. none;
}

renamed-reads :
    (disk : BTreeMap String) (from file : String) (text : Option String)
    → (renamed disk from text file).1 ≡ ok tt
    → BTreeMap.get (renamed disk from text file).0 file ≡ text
renamed-reads disk from file none h = cc
renamed-reads disk from file (some text) h = get-insert_self (BTreeMap.remove disk from) file text

pub toy_disk-IsFaithful : IsFaithful ⦃fs = toy_disk⦄
toy_disk-IsFaithful = record {
  read-write_all = λ disk file payload made wrote.
      ap (λ o. ok_or o (IoError.not_found "no such file")) (get-insert_self _ file payload);
  read-flush = λ disk file other. refl;
  read-sync_all = λ disk file other. refl;
  read-rename = λ disk from file moved.
      ap (λ o. ok_or o (IoError.not_found "no such file"))
        (renamed-reads disk from file (BTreeMap.get disk from) moved);
  read-unlock = λ disk lock other. refl;
}

-- A database file without members.
abbrev pub empty_database : BTreeMap String
empty_database = ("data.json", "{}") ∷ []

abbrev flag_database : Json ℤ
flag_database = from_object (("flag", Json.bool true) ∷ [])

printed-flag :
    (printed : Json ℤ)
    → IsPrinted
        (DataSource.file "data.json")
        "data.json"
        "flag"
        (Json.bool true)
        empty_database
        printed
    → printed ≡ flag_database
unfolding IsPrinted IsRoot locked read_file proceed map_err parse_json parse_text BTreeMap.get
    BTreeMap.insert as_object from_object
printed-flag printed (root, members, read, found, e) =
    e
    ∙ ap (λ m. from_object (BTreeMap.insert m "flag" (Json.bool true)))
        (sym
          (ok-injective (subst (λ r. root_object r ≡ ok members) (sym (ok-injective read)) found)))

pub flag-ReadsBack :
    (printed : Json ℤ)
    → IsPrinted
        (DataSource.file "data.json")
        "data.json"
        "flag"
        (Json.bool true)
        empty_database
        printed
    → ReadsBack printed
unfolding pretty_text parse_text from_object
flag-ReadsBack printed h = subst ReadsBack (sym (printed-flag printed h)) (λ text k.
    subst (λ t. parse_text (format (t ∷ "\n" ∷ [])) ≡ ok flag_database) (ok-injective k) refl)
