-- ===== src/Models.antt =====
-- storage/models.py: the records of the configuration that routing reads. Weights are integers
-- (fixed-point numbers in a unit of their own); ids, retries, seconds and windows are naturals.
use openbotflow.Prelude.{ℕ, String, Bool, Option, List}
use openbotflow.Prelude.Int.{ℤ}
use openbotflow.Json.{Fields}

pub record Provider : Type 0 where
  pub id : ℕ
  pub name : String
  pub provider_type : String
  pub api_key : String
  pub base_url : String
  pub extra_config : Fields
  pub is_enabled : Bool

pub record ModelGroup : Type 0 where
  pub id : ℕ
  pub name : String
  pub description : String
  pub type : String
  pub params : Fields
  pub is_enabled : Bool
  pub fallback_group_id : Option ℕ

pub record GroupModelWithDetails : Type 0 where
  pub id : ℕ
  pub group_id : ℕ
  pub model_id : ℕ
  pub weight : ℤ
  pub is_enabled : Bool
  pub model_name : String
  pub display_name : String
  pub api_format : String
  pub provider_id : ℕ
  pub provider_name : String
  pub provider_type : String
  pub max_retries : ℕ
  pub cooldown_seconds : ℕ
  pub cooldown_failure_threshold : ℕ
  pub context_window : ℕ
  pub proxy : String
  pub extra_config : Fields

-- `ModelEndpoint` of router.py; a provider instance is known by its identity.
pub record ModelEndpoint : Type 0 where
  pub detail : GroupModelWithDetails
  pub provider : ℕ

-- One item of a multimodal content list: a text block, with the text it holds, or another item.
pub data Part : Type 0 where
  text_block : Option String → Part
  other_block : Fields → Part

-- A message's content: missing, a text, a list of blocks, or another value with its `str()`, which
-- is empty for one that is falsy.
pub data Content : Type 0 where
  absent : Content
  text : String → Content
  parts : List Part → Content
  other : String → Content

-- A message, with its role (a text where it is there) and its other keys.
pub record Message : Type 0 where
  pub role : Option String
  pub content : Content
  pub rest : Fields

-- `_routing`, which the gateway writes into a response.
pub record Routing : Type 0 where
  pub model_id : ℕ
  pub provider_id : ℕ

-- A response dict of a provider, with the key `_routing` as a field of its own.
pub record Response : Type 0 where
  pub body : Fields
  pub routing : Option Routing

-- `RouteResult` of pipeline/base.py.
pub record RouteResult : Type 0 where
  pub endpoints : List ModelEndpoint
  pub messages : List Message
  pub temperature : Option ℤ
  pub max_tokens : Option ℕ
  pub extra_kwargs : Fields
