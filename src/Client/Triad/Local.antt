-- ===== src/Client/Triad/Local.antt =====
-- A client in memory over the application of ta/triad/triad_ta.c, on a device whose store takes writes of
-- up to 64 bytes.
use frameworks_security.Base.{◌%◌, ◌/◌, ◌+◌, ◌*◌, some, none, [], arith}
use frameworks_security.Tee.{other}
use frameworks_security.Tee.Memory.{device, empty}
use frameworks_security.Teec.{Teec, TeecLaws}
use frameworks_security.Teec.Local.{Local, client, client-TeecLaws, start}
use frameworks_security.Triad.Hmac.{Mac}
use frameworks_security.Triad.Header.{Platform}
use frameworks_security.Triad.Gcm.{Ae}
use frameworks_security.Client.{Called}
use frameworks_security.Client.Triad.Session.{triad_app}

-- Message authentication and encryption that always fail.
abbrev pub no_mac : Mac device
no_mac = record {
  allocate_object = λ _ w. (other 0, 0, w);
  populate = λ _ _ w. (other 0, w);
  allocate_operation = λ _ w. (other 0, 0, w);
  set_operation_key = λ _ _ w. (other 0, w);
  mac_update = λ _ _ w. w;
  mac_final = λ _ _ w. (other 0, [], w);
  free_object = λ _ w. w;
}

abbrev pub no_ae : Ae device
no_ae = record {
  allocate_operation = λ _ _ w. (other 0, 0, w);
  allocate_object = λ _ w. (other 0, 0, w);
  populate = λ _ _ w. (other 0, w);
  set_operation_key = λ _ _ w. (other 0, w);
  ae_init = λ _ _ _ w. (other 0, w);
  ae_update_aad = λ _ _ w. w;
  ae_encrypt_final = λ _ _ _ _ w. (other 0, [], [], w);
  ae_decrypt_final = λ _ _ _ _ w. (other 0, [], w);
  free_object = λ _ w. w;
}

-- The low byte first.
abbrev pub little_endian : Platform
little_endian = record {
  load16 = λ low high. low + 256 * high;
  low16 = λ n. n % 256;
  high16 = λ n. n / 256 % 256;
  load16_stored = λ n. omega arith;
}

abbrev pub begin : Local device
begin = start device (empty 64)

abbrev pub service : Teec device
service = client device (triad_app device no_mac no_ae little_endian 0)

abbrev pub service-laws : TeecLaws service (triad_app device no_mac no_ae little_endian 0) ⊥
service-laws = client-TeecLaws device (triad_app device no_mac no_ae little_endian 0)

-- The world after a call, or the first one if there is none.
abbrev pub world_of : Called (Local device) Unit → Local device
world_of none = begin
world_of (some (_, _, w)) = w
