-- ===== src/Auth/Messages.antt =====
-- modules/auth/messages.go: the messages of the module.
use punnet_sdk.Base.{
  not, List, [], ◌∷◌, length, ◌==◌, Outcome, fail_if, ◌>>◌, invalid_account, empty_key,
}
use punnet_sdk.Base.Bytes.{Bytes, codes}
use punnet_sdk.Types.AccountName
use punnet_sdk.Types.Authority.{Authority}
use punnet_sdk.Types.Authority
use punnet_sdk.Types.Transaction.{Message}

pub record MsgCreateAccount : Type 0 where
  pub name : Bytes
  pub pub_key : Bytes
  pub authority : Authority

pub record MsgUpdateAuthority : Type 0 where
  pub name : Bytes
  pub new_authority : Authority

pub record MsgDeleteAccount : Type 0 where
  pub name : Bytes

-- The messages as values of the interface `Message`.
pub data AuthMsg : Type 0 where
  create_account : MsgCreateAccount → AuthMsg
  update_authority : MsgUpdateAuthority → AuthMsg
  delete_account : MsgDeleteAccount → AuthMsg

unfoldable pub message_type : AuthMsg → Bytes
message_type (create_account m) = codes "/punnet.auth.v1.MsgCreateAccount"
message_type (update_authority m) = codes "/punnet.auth.v1.MsgUpdateAuthority"
message_type (delete_account m) = codes "/punnet.auth.v1.MsgDeleteAccount"

unfoldable pub validate : AuthMsg → Outcome (Unit {0})
validate (create_account m) = do
  fail_if (not (AccountName.is_valid m.name)) invalid_account
  fail_if (length m.pub_key == 0) empty_key
  Authority.validate_basic m.authority
validate (update_authority m) = do
  fail_if (not (AccountName.is_valid m.name)) invalid_account
  Authority.validate_basic m.new_authority
validate (delete_account m) = fail_if (not (AccountName.is_valid m.name)) invalid_account

unfoldable pub get_signers : AuthMsg → List Bytes
get_signers (create_account m) = m.name ∷ []
get_signers (update_authority m) = m.name ∷ []
get_signers (delete_account m) = m.name ∷ []

abbrev pub auth_message : Message AuthMsg
auth_message = record {
  message_type = message_type;
  validate = validate;
  get_signers = get_signers;
}
