-- ===== src/Purge/Chats.antt =====
-- `purgeExpiredChatMessages`: the messages that its two passes delete.
use contractor_reviewer.Common.{
  ℕ, String, Bool, false, not, ◌&&◌, ◌≡◌, ◌∙◌, arith, List, [], ◌∷◌, any, Bool-cases, inl, inr,
}
use contractor_reviewer.Entities.{ChatMessage, WorkspaceSettings}
use contractor_reviewer.Retention.{get_retention_config}
use contractor_reviewer.Retention.Config.{config_at, get_retention_config-config_at}
use contractor_reviewer.Purge.{
  Tables, State, Faults, ChatCounts, purge_no_logs, purge_no_logs_loop, purge_messages,
  purge_messages_loop, cutoff, chat_days, skips_chat, accelerated_days,
}
use contractor_reviewer.Purge.Policy.{IsCalm, get_retention_config-IsCalm}
use contractor_reviewer.Purge.Messages.{
  Pass, Pass-trans, Pass-none, is_before, removed-Pass, Pass-eq,
}

module _ (T : Tables) (F : Faults) (new_id : String → String) (now : ℕ)
    (t₀ : T.settings.Table) where
  -- Deleted in the round of a row of settings: its workspace skips chat messages, and the message
  -- is older than the days of its accelerated purge.
  abbrev pub no_logs_one : WorkspaceSettings → ChatMessage → Bool
  no_logs_one w m =
      skips_chat T F new_id now w.no_logs_config
      && (not (F.no_logs w.workspace_id)
          && is_before T F new_id now t₀ w.workspace_id
              (cutoff T F new_id now (accelerated_days T F new_id now w.no_logs_config)) m)

  abbrev pub no_logs_doomed : List WorkspaceSettings → ChatMessage → Bool
  no_logs_doomed l m = any (λ w. no_logs_one w m) l

  -- Deleted in the round of a workspace: the message is older than its policy allows.
  abbrev pub retention_one : String → ChatMessage → Bool
  retention_one ws m =
      not (F.config ws)
      && (not (F.messages ws)
          && is_before T F new_id now t₀ ws
              (cutoff T F new_id now (chat_days T F new_id now (config_at T.settings t₀ ws))) m)

  abbrev pub retention_doomed : List String → ChatMessage → Bool
  retention_doomed l m = any (λ ws. retention_one ws m) l

  purge_no_logs-Pass :
      (w : WorkspaceSettings) (s : State T) (c : ChatCounts)
      → IsCalm T.settings new_id t₀ s.settings
      → Pass T F new_id now t₀ (no_logs_one w) s (purge_no_logs T F new_id now w (s, c)).0
  unfolding purge_no_logs
  purge_no_logs-Pass w s c calm = elim (Bool-cases (skips_chat T F new_id now w.no_logs_config)) [
    | inl b ↦
        let date = cutoff T F new_id now (accelerated_days T F new_id now w.no_logs_config) in
        rw (b, purge_no_logs)
          (Pass-eq T F new_id now t₀
            (λ m.
              not (F.no_logs w.workspace_id) && is_before T F new_id now t₀ w.workspace_id date m)
            (no_logs_one w) s _ (λ m. ground (arith, b))
            (removed-Pass T F new_id now t₀ (F.no_logs w.workspace_id) w.workspace_id date s c
              calm))
    | inr b ↦
        rw (b, purge_no_logs)
          (Pass-eq T F new_id now t₀ (λ m. false) (no_logs_one w) s s (λ m. ground (arith, b))
            (Pass-none T F new_id now t₀ s calm))
  ]

  pub no_logs_loop-Pass :
      (l : List WorkspaceSettings) (s : State T) (c : ChatCounts)
      → IsCalm T.settings new_id t₀ s.settings
      → Pass T F new_id now t₀ (no_logs_doomed l) s (purge_no_logs_loop T F new_id now l (s, c)).0
  unfolding purge_no_logs_loop
  no_logs_loop-Pass [] s c calm = Pass-none T F new_id now t₀ s calm
  no_logs_loop-Pass (w ∷ l) s c calm =
      let one = purge_no_logs-Pass w s c calm in
      let r = purge_no_logs T F new_id now w (s, c) in
      Pass-trans T F new_id now t₀ (no_logs_one w) (no_logs_doomed l) s r.0 _ one
        (no_logs_loop-Pass l r.0 r.1 one.calm)

  module _ (inj : (a b : String) → new_id a ≡ new_id b → a ≡ b) where
    after_reading-Pass :
        (doomed : ChatMessage → Bool) (s s' : State T) (t : T.settings.Table)
        → Pass T F new_id now t₀ doomed (record s { settings = t }) s'
        → Pass T F new_id now t₀ doomed s s'
    after_reading-Pass doomed s s' t p = record {
      messages = p.messages;
      files = p.files;
      documents = p.documents;
      chunks = p.chunks;
      threads = p.threads;
      memories = p.memories;
      storage = p.storage;
      calm = p.calm;
    }

    purge_messages-Pass :
        (ws : String) (s : State T) (c : ChatCounts)
        → IsCalm T.settings new_id t₀ s.settings
        → Pass T F new_id now t₀ (retention_one ws) s (purge_messages T F new_id now ws (s, c)).0
    unfolding purge_messages
    purge_messages-Pass ws s c calm = elim (Bool-cases (F.config ws)) [
      | inl b ↦
          rw (b, purge_messages)
            (Pass-eq T F new_id now t₀ (λ m. false) (retention_one ws) s s (λ m. ground (arith, b))
              (Pass-none T F new_id now t₀ s calm))
      | inr b ↦
          let t = (get_retention_config T.settings (new_id ws) ws s.settings).1 in
          let calm' = get_retention_config-IsCalm T.settings new_id t₀ inj ws s.settings calm in
          let config : (get_retention_config T.settings (new_id ws) ws s.settings).0
              ≡ config_at T.settings t₀ ws =
            get_retention_config-config_at T.settings (new_id ws) ws s.settings ∙ calm.same ws in
          let date =
            cutoff T F new_id now (chat_days T F new_id now (config_at T.settings t₀ ws)) in
          rw (b, config, purge_messages)
            (after_reading-Pass (retention_one ws) s _ t (
              Pass-eq T F new_id now t₀
                (λ m. not (F.messages ws) && is_before T F new_id now t₀ ws date m)
                (retention_one ws) (record s { settings = t }) _ (λ m. ground (arith, b))
                (removed-Pass T F new_id now t₀ (F.messages ws) ws date (record s { settings = t })
                  c calm')))
    ]

    pub messages_loop-Pass :
        (l : List String) (s : State T) (c : ChatCounts)
        → IsCalm T.settings new_id t₀ s.settings
        → Pass T F new_id now t₀
            (retention_doomed l)
            s
            (purge_messages_loop T F new_id now l (s, c)).0
    unfolding purge_messages_loop
    messages_loop-Pass [] s c calm = Pass-none T F new_id now t₀ s calm
    messages_loop-Pass (ws ∷ l) s c calm =
        let one = purge_messages-Pass ws s c calm in
        let r = purge_messages T F new_id now ws (s, c) in
        Pass-trans T F new_id now t₀ (retention_one ws) (retention_doomed l) s r.0 _ one
          (messages_loop-Pass l r.0 r.1 one.calm)
