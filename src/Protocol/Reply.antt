-- ===== src/Protocol/Reply.antt =====
-- The replies of an engine's handle_command, of live.py and mock.py, which operator.py makes
-- into the envelope of a result.
use bifrost_platform_plugin.Prelude.{◌≡◌, ◌⊎◌, true, false, [], ◌∷◌, ◌++◌, some}
use bifrost_platform_plugin.Text.{Text, txt, get}
use bifrost_platform_plugin.Json.{Json, boolean, string, object, Dict, entries_of}

abbrev pub ok_reply : Json → Dict
ok_reply value = (txt "ok", boolean true) ∷ (txt "data", value) ∷ []

abbrev pub error_reply : Text → Dict
error_reply message = (txt "ok", boolean false) ∷ (txt "error", string message) ∷ []

-- An object with one key.
abbrev pub one : Text → Json → Json
one key value = object (entries_of ((key, value) ∷ []))

-- Data, or an error, which may come with data.
pub data Reply : Type 0 where
  done : Json → Reply
  failed : Text → Reply
  failed_with : Text → Json → Reply

unfoldable pub dict_of_reply : Reply → Dict
dict_of_reply (done value) = ok_reply value
dict_of_reply (failed message) = error_reply message
dict_of_reply (failed_with message value) = error_reply message ++ (txt "data", value) ∷ []

abbrev pub IsReply : Dict → Type 0
IsReply d = (r : Reply) × (d ≡ dict_of_reply r)

-- The envelope of a result, as its clients read it: the command's id, and data where `ok` is true,
-- an error text where it is false.
abbrev pub IsEnvelope : Text → Dict → Type 0
IsEnvelope req_id d =
    (get (txt "req_id") d ≡ some (string req_id))
    × (((get (txt "ok") d ≡ some (boolean true)) × (v : Json) × (get (txt "data") d ≡ some v))
        ⊎ ((get (txt "ok") d ≡ some (boolean false))
            × (s : Text) × (get (txt "error") d ≡ some (string s))))
