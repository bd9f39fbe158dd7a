-- ===== src/Validator/Fetch.antt =====
-- getCurrentMpcSet and getSignInfo of validator/validator.go: the requests to the REST service.
-- net/http, io and encoding/json are parameters; the timeout of a request is one of its errors.
use tss_server.Prelude.{Text, text, List, ◌++◌, Bool, Result, ok, ◌>>=◌}
use tss_server.Prelude.Int.{ℤ}
use tss_server.Proto.{PartyId}
use tss_server.Validator.{MpcPartyId, Sign, key_gen_validate, key_sign_validate}

-- The two answers.
pub record ResultMpcSet : Type 0 where
  pub height : Text
  pub result : List MpcPartyId

pub record ResultSignInfo : Type 0 where
  pub height : Text
  pub result : Sign

-- NewRequest of a GET, Do, ReadAll of the body, and Unmarshal of the two answers. A response has a
-- status, which the code does not look at.
pub record Http : Type 1 where
  pub Request : Type 0
  pub Response : Type 0
  pub new_request : Text → Result Request
  pub do_request : Request → Result Response
  pub read_all : Response → Result Text
  pub unmarshal_mpc_set : Text → Result ResultMpcSet
  pub unmarshal_sign_info : Text → Result ResultSignInfo

module _ (http : Http) (themis_rest_url : Text) where
  -- The body of the answer to a GET of the URL.
  unfoldable pub get_body : Text → Result Text
  get_body url = do
    request ← http.new_request url
    response ← http.do_request request
    http.read_all response

  unfoldable pub get_current_mpc_set : Result ResultMpcSet
  unfolding get_body
  get_current_mpc_set = do
    body ← get_body (themis_rest_url ++ text "/mpc/set")
    http.unmarshal_mpc_set body

  unfoldable pub get_sign_info : Text → Result ResultSignInfo
  unfolding get_body
  get_sign_info sign_id = do
    body ← get_body (themis_rest_url ++ text "/mpc/sign/" ++ sign_id)
    http.unmarshal_sign_info body

  -- The two methods of the validator that the manager is given.
  unfoldable pub key_gen_validator : (Text → Text) → Text → ℤ → List PartyId → Result (Unit {0})
  key_gen_validator to_lower =
      key_gen_validate to_lower (do outputs ← get_current_mpc_set; ok outputs.result)

  unfoldable pub key_sign_validator : (Text → Text → Bool) → Text → Text → Text → Result Text
  key_sign_validator equal_fold =
      key_sign_validate equal_fold
        λ sign_id. do sign_info ← get_sign_info sign_id; ok sign_info.result
