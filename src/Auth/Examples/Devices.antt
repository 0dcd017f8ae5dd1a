-- ===== src/Auth/Examples/Devices.antt =====
-- A device whose secret is rotated, on the functions of server/src/auth/device-rotation.ts.
use cernere.Base.{◌+◌, none, some, ◌≡◌, refl, arith}
use cernere.Auth.Tables.{DeviceCredential}
use cernere.Auth.Devices.{
  RotationKeys, RotationInput, Rotation, RotationColumns, rotates, decide_rotation, rotate,
  state_from,
}
use cernere.Auth.Devices.Retried.{IsRetried, decide_rotation-IsRetried}

abbrev device_row : DeviceCredential
device_row = record {
  id = 30;
  user_id = 2;
  root_passkey_id = some 20;
  token_key_id = 1;
  auth_epoch = some 0;
  expires_at = 2592000000;
  revoked_at = none;
  revoked_reason = none;
}

abbrev simple_keys : RotationKeys
simple_keys = record {
  compute_secret_hash = λ id secret. secret + 1000;
  derive_next_secret = λ id generation rotation_id. generation + 500;
}

abbrev device_columns : RotationColumns
device_columns = record {
  id = 30;
  generation = 4;
  current_secret_hash = 1007;
  previous_secret_hash = none;
  previous_valid_until = none;
  last_rotation_id = none;
  last_rotated_at = none;
  last_used_at = 0;
}

abbrev device_call : RotationInput
device_call = record { presented_secret = 7; rotation_id = "first"; now = 60000 }

abbrev device_next : Rotation
device_next = record {
  secret = 505;
  next_generation = 5;
  next_secret_hash = 1505;
  previous_valid_until = 90000;
}

device_rotates :
    decide_rotation (state_from device_row device_columns) device_call simple_keys
    ≡ rotates device_next
unfolding decide_rotation rotate
device_rotates = refl

decide_rotation-IsRetried_example :
    IsRetried device_row device_columns simple_keys device_call device_next
decide_rotation-IsRetried_example =
    decide_rotation-IsRetried device_row device_columns simple_keys device_call device_next
      device_rotates refl (λ e. ground (arith, e))
