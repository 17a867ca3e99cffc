-- ===== src/Storage/Models.antt =====
-- storage/common/src/models.rs
use dlc_stack.Base.{ℕ, String, Option}

pub record NewContract : Type 0 where
  pub uuid : String
  pub state : String
  pub content : String
  pub key : String

pub record Contract : Type 0 where
  pub id : ℕ
  pub uuid : String
  pub state : String
  pub content : String
  pub key : String

pub record UpdateContract : Type 0 where
  pub uuid : String
  pub state : Option String
  pub content : Option String
  pub key : String

pub record DeleteContract : Type 0 where
  pub uuid : String
  pub key : String

pub record ContractRequestParams : Type 0 where
  pub key : String
  pub uuid : Option String
  pub state : Option String

pub record NewEvent : Type 0 where
  pub event_id : String
  pub content : String
  pub key : String

pub record Event : Type 0 where
  pub id : ℕ
  pub event_id : String
  pub content : String
  pub key : String

pub record UpdateEvent : Type 0 where
  pub event_id : String
  pub content : String
  pub key : String

pub record DeleteEvent : Type 0 where
  pub event_id : String
  pub key : String

pub record EventRequestParams : Type 0 where
  pub key : String
  pub event_id : Option String
