-- ===== src/Triad/Dispatch.antt =====
-- TRIAD_TA_InvokeCommandEntryPoint of ta/triad/triad_ta.c.
use frameworks_security.Base.{ℕ, ◌==◌, if◌then◌else◌}
use frameworks_security.Tee.{Tee, ParamTypes, Params}
use frameworks_security.Ta.{Outcome, refuse}
use frameworks_security.Triad.{store_key, load_key, store_did, load_did}
use frameworks_security.Triad.Hmac.{Mac, get_hmac}
use frameworks_security.Triad.Header.{Platform}
use frameworks_security.Triad.Gcm.{Ae, gcm_encrypt, gcm_decrypt}

-- TA_TRIAD_CMD_*
abbrev pub cmd_store_did : ℕ
cmd_store_did = 0

abbrev pub cmd_load_did : ℕ
cmd_load_did = 1

abbrev pub cmd_store_key : ℕ
cmd_store_key = 2

abbrev pub cmd_load_key : ℕ
cmd_load_key = 3

abbrev pub cmd_get_hmac : ℕ
cmd_get_hmac = 4

abbrev pub cmd_gcm_encrypt : ℕ
cmd_gcm_encrypt = 5

abbrev pub cmd_gcm_decrypt : ℕ
cmd_gcm_decrypt = 6

-- `stack` is what an uninitialised variable of TA_Gcm_Decrypt holds.
module _ (t : Tee) (m : Mac t) (ae : Ae t) (p : Platform) (stack : ℕ) where
  open t use {World}

  unfoldable pub invoke_command : ℕ → ParamTypes → Params → World → Outcome t
  invoke_command cmd types ps w =
      if cmd == cmd_store_key
      then store_key t types ps w
      else if cmd == cmd_load_key
      then load_key t types ps w
      else if cmd == cmd_store_did
      then store_did t types ps w
      else if cmd == cmd_load_did
      then load_did t types ps w
      else if cmd == cmd_get_hmac
      then get_hmac t m types ps w
      else if cmd == cmd_gcm_encrypt
      then gcm_encrypt t ae p types ps w
      else if cmd == cmd_gcm_decrypt
      then gcm_decrypt t ae p stack types ps w
      else refuse t ps w
