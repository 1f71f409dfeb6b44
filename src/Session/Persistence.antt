-- ===== src/Session/Persistence.antt =====
-- The interface of src/assistant_runtime/app/assistant/_session_persistence.py that the session store
-- writes through. `D` is the database; each method may raise, and what it wrote stays written.
use assistant_runtime.Prelude.{ℕ, String, Option, List, Exec}
use assistant_runtime.Session.Types.{
  Message, Segment, Steering, SteeringStatus, Context, LoadedSession,
}
use assistant_runtime.Session.Context.{PathError}

pub data StoreError : Type 0 where
  session_not_found : StoreError
  parent_not_found : String → StoreError
  message_not_found : String → StoreError
  message_exists : String → StoreError
  steering_exists : String → StoreError
  steering_in_tree : StoreError
  bad_parent_role : StoreError
  broken_path : PathError → StoreError
  key_error : String → StoreError
  database_error : String → StoreError

-- The columns that an update sets; an absent one is left as it is.
pub record MessageChanges (J : Type 0) : Type 0 where
  pub content : Option String
  pub segments : Option (List (Segment J))
  pub usage : Option J
  pub prompt : Option J
  pub model_messages : Option (List J)

pub record SessionRow : Type 0 where
  pub session_id : String
  pub owner_id : Option String
  pub title : Option String
  pub turn_number : ℕ
  pub message_count : ℕ
  pub created_at : Option ℕ
  pub updated_at : Option ℕ

pub record SessionPersistence (D J : Type 0) : Type 0 where
  pub ensure_session :
      (session_id : String) (title owner_id profile subject : Option String)
      → Exec D StoreError (Unit {0})
  pub set_binding :
      (session_id : String) (profile subject : Option String) → Exec D StoreError (Unit {0})
  pub set_owner : (session_id : String) (owner_id : Option String) → Exec D StoreError (Unit {0})
  pub create_message : Message J → Exec D StoreError (Unit {0})
  pub update_message : (message_id : String) → MessageChanges J → Exec D StoreError (Unit {0})
  pub save_prompt_snapshot : (snapshot_hash content : String) → Exec D StoreError (Unit {0})
  pub prompt_snapshot : (snapshot_hash : String) → Exec D StoreError (Option String)
  pub update_segments : List (String × Message J) → Exec D StoreError (Unit {0})
  pub create_steering : Steering J → Exec D StoreError (Unit {0})
  pub mark_steering :
      List String → SteeringStatus → (delivered_at : ℕ) → Exec D StoreError (Unit {0})
  pub save_state : (session_id : String) → Context J → Exec D StoreError (Unit {0})
  pub session_for_telegram_chat : (chat_id : String) → Exec D StoreError (Option String)
  pub delete : (session_id : String) → Exec D StoreError (Unit {0})
  pub list_sessions :
      (limit offset : ℕ) (owner_id : Option String) (updated_after : Option ℕ)
      → Exec D StoreError (List SessionRow)
  pub count_messages : (start end : ℕ) → Exec D StoreError ℕ
  pub cleanup_expired : Exec D StoreError ℕ
  pub load : (session_id : String) → Exec D StoreError (Option (LoadedSession J))
