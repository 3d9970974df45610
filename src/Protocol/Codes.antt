-- ===== src/Protocol/Codes.antt =====
-- The wire codes of protocol.py: message types, operations, control types, response statuses,
-- identity kinds and credential statuses. The dispatch of the program compares plain integers.
use secupload.Base.{ℕ, ◌==◌, if◌then◌else◌}
use secupload.Base.Result.{Result, ok, err, Error}
use secupload.Models.{CredentialStatus, IdentityKind, status_code}

pub data MsgType : Type 0 where
  request response obj_chunk control : MsgType

-- `.value`
abbrev pub msg_code : MsgType → ℕ
msg_code MsgType.request = 1
msg_code MsgType.response = 2
msg_code MsgType.obj_chunk = 3
msg_code MsgType.control = 4

pub data Op : Type 0 where
  read write read_chunk : Op

abbrev pub op_code : Op → ℕ
op_code Op.read = 1
op_code Op.write = 2
op_code Op.read_chunk = 3

pub data ControlType : Type 0 where
  enroll enroll_resp recover rotate_submit rotate_submit_resp : ControlType
  rotate_checkpoint rotate_checkpoint_resp rotate_rollback rotate_rollback_resp : ControlType
  rotate_revoke rotate_revoke_resp registry_sync_req registry_sync_resp : ControlType
  registry_update : ControlType

abbrev pub control_code : ControlType → ℕ
control_code ControlType.enroll = 1
control_code ControlType.enroll_resp = 2
control_code ControlType.recover = 3
control_code ControlType.rotate_submit = 4
control_code ControlType.rotate_submit_resp = 5
control_code ControlType.rotate_checkpoint = 6
control_code ControlType.rotate_checkpoint_resp = 7
control_code ControlType.rotate_rollback = 8
control_code ControlType.rotate_rollback_resp = 9
control_code ControlType.rotate_revoke = 10
control_code ControlType.rotate_revoke_resp = 11
control_code ControlType.registry_sync_req = 12
control_code ControlType.registry_sync_resp = 13
control_code ControlType.registry_update = 14

pub data RespStatus : Type 0 where
  success error unauthorized forbidden not_found invalid replay integrity : RespStatus

abbrev pub resp_code : RespStatus → ℕ
resp_code RespStatus.success = 0
resp_code RespStatus.error = 1
resp_code RespStatus.unauthorized = 2
resp_code RespStatus.forbidden = 3
resp_code RespStatus.not_found = 4
resp_code RespStatus.invalid = 5
resp_code RespStatus.replay = 6
resp_code RespStatus.integrity = 7

unfoldable pub kind_to_code : IdentityKind → ℕ
kind_to_code IdentityKind.client = 1
kind_to_code IdentityKind.proxy = 2
kind_to_code IdentityKind.server = 3

unfoldable pub kind_from_code : ℕ → Result IdentityKind
kind_from_code c =
    if c == 1
    then ok IdentityKind.client
    else if c == 2
    then ok IdentityKind.proxy
    else if c == 3
    then ok IdentityKind.server
    else err Error.protocol_error

unfoldable pub status_to_code : CredentialStatus → ℕ
status_to_code = status_code

unfoldable status_from_code : ℕ → Result CredentialStatus
status_from_code c =
    if c == 0
    then ok CredentialStatus.generated
    else if c == 1
    then ok CredentialStatus.validating
    else if c == 2
    then ok CredentialStatus.active
    else if c == 3
    then ok CredentialStatus.fallback
    else if c == 4
    then ok CredentialStatus.expired
    else if c == 5
    then ok CredentialStatus.terminated
    else if c == 6
    then ok CredentialStatus.revoked
    else err Error.protocol_error
