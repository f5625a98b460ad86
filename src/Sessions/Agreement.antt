-- ===== src/Sessions/Agreement.antt =====
-- The session store on a file answers as the one in memory (backend/gateway/src/session.ts).
use nzela.Base.{
  ℕ, ◌≡◌, refl, subst, false, List, [], ◌∷◌, String, arith, is_some, ◌===◌, ===_iff, Bool-cases,
  inl, inr,
}
use nzela.Dict.{lookup, erase, has, lookup-insert, lookup-erase}
use nzela.Store.{Json, FileKv, kv_set, kv_get, kv_delete, flush}
use nzela.Sessions.{
  Session, Sessions, session_of, save_session, reset_session, file_session_of, file_save_session,
  file_reset_session,
}

-- A message's effect on the sessions, with the random vector of the write.
pub data SessionOp : Type 0 where
  saving : ℕ → Session → SessionOp
  resetting : ℕ → String → SessionOp

unfoldable pub memory_op : Sessions → SessionOp → Sessions
memory_op m (saving n s) = save_session m s
memory_op m (resetting n wa) = reset_session m wa

unfoldable pub memory_ops : Sessions → List SessionOp → Sessions
memory_ops m [] = m
memory_ops m (op ∷ ops) = memory_ops (memory_op m op) ops

erase_missing :
    (m c : Sessions) (wa k : String)
    → ((j : String) → lookup j c ≡ lookup j m)
    → has wa c ≡ false
    → lookup k c ≡ lookup k (erase wa m)
unfolding has
erase_missing m c wa k same e = elim (Bool-cases (wa === k)) [
  | inl at_it ↦
      let unseen = subst (λ x. is_some (lookup x c) ≡ false) ((===_iff wa k).0 at_it) e in
      ground (arith, lookup-erase wa k m)
  | inr other ↦ ground (arith, lookup-erase wa k m, same k)
]

module _ {Raw : Type 0} (json : Json Raw Session) where
  unfoldable pub file_op : FileKv Raw Session → SessionOp → FileKv Raw Session
  file_op kv (saving n s) = file_save_session json kv n s
  file_op kv (resetting n wa) = file_reset_session json kv n wa

  unfoldable pub file_ops : FileKv Raw Session → List SessionOp → FileKv Raw Session
  file_ops kv [] = kv
  file_ops kv (op ∷ ops) = file_ops (file_op kv op) ops

  same_op :
      (m : Sessions) (kv : FileKv Raw Session) (op : SessionOp)
      → ((k : String) → lookup k kv.cache ≡ lookup k m)
      → (k : String) → lookup k (file_op kv op).cache ≡ lookup k (memory_op m op)
  unfolding file_op memory_op file_save_session save_session file_reset_session reset_session kv_set
      kv_delete flush
  same_op m kv (saving n s) same k =
      ground (arith, lookup-insert s.wa_id k s kv.cache, lookup-insert s.wa_id k s m, same k)
  same_op m kv (resetting n wa) same k = elim (Bool-cases (has wa kv.cache)) [
    | inl e ↦ rw e (ground (arith, lookup-erase wa k kv.cache, lookup-erase wa k m, same k))
    | inr e ↦ rw e (erase_missing m kv.cache wa k same e)
  ]

  -- After any saves and resets, the store on a file gives every customer the session that the store
  -- in memory gives, when the two hold the same sessions at the start.
  pub file_sessions_agree :
      (ops : List SessionOp) (m : Sessions) (kv : FileKv Raw Session)
      → ((k : String) → lookup k kv.cache ≡ lookup k m)
      → (wa : String) → file_session_of (file_ops kv ops) wa ≡ session_of (memory_ops m ops) wa
  unfolding file_ops memory_ops file_session_of session_of kv_get
  file_sessions_agree [] m kv same wa = rw (same wa) refl
  file_sessions_agree (op ∷ ops) m kv same wa =
      file_sessions_agree ops (memory_op m op) (file_op kv op) (same_op m kv op same) wa
