-- ===== src/Server/DojoId.antt =====
-- The check of a dojo's identifier and the look-up of the dojo, `assert_safe_dojo_external_id` and
-- `dojo_data_dir` of sync-server/src/tus_handlers.rs. What the database answers is a parameter.
use dojjo.Prelude.{
  Bool, true, false, not, ◌||◌, Option, none, some, Result, ok, err, assert, guard, ◌>>◌,
}
use dojjo.Prelude.Text.{Text, is_empty, has_char, has_dots}
use dojjo.Server.MirrorGet.{AppError, bad_request, not_found, internal}

unfoldable pub assert_safe_dojo_external_id : Text → Result AppError (Unit {0})
assert_safe_dojo_external_id id = do
  assert (not (is_empty id))
  guard (not (has_char b'/' id || has_char b'\\' id || has_dots id)) bad_request

-- The query may fail.
abbrev pub dojo_found : Option Bool → Result AppError (Unit {0})
dojo_found none = err internal
dojo_found (some false) = err not_found
dojo_found (some true) = ok tt

unfoldable pub dojo_data_dir : (Text → Option Bool) → Text → Result AppError (Unit {0})
dojo_data_dir find_dojo dojo_id = do assert (not (is_empty dojo_id)); dojo_found (find_dojo dojo_id)
