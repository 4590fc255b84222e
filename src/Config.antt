-- ===== src/Config.antt =====
-- src/config/config.cpp: the configuration, one object that every thread shares.
pub mod Threads
pub mod Phases
pub mod Once
pub mod Ending
pub mod Waiting
use pollbook_server.Prelude.{
  ℕ, Bool, true, false, Option, none, some, List, [], ◌∷◌, text_eq, if◌then◌else◌, Text, codes,
}
use pollbook_server.Map.{Map, lookup, insert}
use pollbook_server.Run.{Run, done, throws, ◌>>=◌, or_throw}

-- ini::IniFile: its sections, each with its keys and values.
abbrev pub IniFile : Type 0
IniFile = Map Text (Map Text Text)

abbrev pub section_basic : Text
section_basic = codes "Basic"

abbrev pub section_security : Text
section_security = codes "Security"

abbrev pub local_private_key : Text
local_private_key = codes "private_key"

-- IniFile::operator[], which adds an empty section where there is none.
unfoldable pub section_of : Text → IniFile → IniFile × Map Text Text
section_of section file = elim (lookup section file) [
  | none ↦ (insert section [] file, [])
  | some keys ↦ (file, keys)
]

abbrev pub is_present {ℓ} : {A : Type ℓ} → Option A → Bool
is_present none = false
is_present (some a) = true

unfoldable pub has_key : Text → Text → IniFile → IniFile × Bool
unfolding section_of
has_key section key file =
    let (file', keys) = section_of section file in (file', is_present (lookup key keys))

-- parsed_config_file[section][key].as<std::string>(): a key that is missing is added, empty.
unfoldable pub get_string : Text → Text → IniFile → IniFile × Text
unfolding section_of
get_string section key file =
    let (file', keys) = section_of section file in
    elim (lookup key keys) [
      | none ↦ (insert section (insert key [] keys) file', [])
      | some value ↦ (file', value)
    ]

abbrev pub check_key : IniFile × Bool → Run IniFile
check_key (file, true) = done file
check_key (file, false) = throws

-- The constructor, on the file that has been loaded.
unfoldable pub new_config : Option IniFile → Run IniFile
unfolding has_key
new_config loaded = do
  file ← or_throw loaded
  basic ← or_throw (lookup section_basic file)
  security ← or_throw (lookup section_security file)
  check_key (has_key section_security local_private_key file)
