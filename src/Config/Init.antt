-- ===== src/Config/Init.antt =====
-- The configuration that the program starts with: `parse_prot_json`, `local_config_init`, and the
-- options of `main`. `parse` is the library's parser, of a text up to its NUL; none is a text with an
-- error.
use sanbao_prot.Base.{
  Bool, true, false, not, List, [], ◌∷◌, ◌>>=◌, Bytes, Option, none, some, length, ltb,
  if◌then◌else◌,
}
use sanbao_prot.Config.Json.{Value, until_nul}
use sanbao_prot.Config.{Settings, zero_settings, set_local_config_default, parse_document}

-- An option of `getopt`; of `-f` with the text of the file, if it can be opened.
pub data Opt : Type 0 where
  h V v : Opt
  f : Option Bytes → Opt

-- What `parse_prot_json` does with the parsed text: the configuration, and whether the return value is
-- 0; none when the program ends.
unfoldable pub take_document : Option Value → Settings → Option (Settings × Bool)
take_document none c = some (c, false)
take_document (some document) c = do c1 ← parse_document document c; some (c1, true)

module _ (parse : Bytes → Option Value) where
  unfoldable pub parse_prot_json : Bytes → Settings → Option (Settings × Bool)
  unfolding take_document
  parse_prot_json buffer c = take_document (parse (until_nul buffer)) c

  -- The whole file is read into `buffer`, of 1024 bytes, and a NUL is put behind it; none is a write
  -- behind the buffer, too.
  unfoldable pub local_config_init : Option Bytes → Settings → Option (Settings × Bool)
  unfolding parse_prot_json
  local_config_init none c = some (c, false)
  local_config_init (some content) c =
      if ltb (length content) 1024 then parse_prot_json content c else none

  -- A round of the loop over the options; none when the program ends.
  unfoldable pub main_option : Opt → Settings → Option Settings
  unfolding local_config_init
  main_option h c = none
  main_option V c = some c
  main_option v c = none
  main_option (f file) c = do
    (c1, ok) ← local_config_init file c
    if ok then some (record c1 { using_para_file = true }) else none

  unfoldable pub main_options : List Opt → Settings → Option Settings
  unfolding main_option
  main_options [] c = some c
  main_options (o ∷ opts) c = do c1 ← main_option o c; main_options opts c1

  -- `main` up to its threads.
  unfoldable pub configure : List Opt → Option Settings
  unfolding main_options
  configure opts = do
    c ← main_options opts zero_settings
    some (if not c.using_para_file then set_local_config_default c else c)
