-- ===== src/Observability/Export/Control.antt =====
-- Which datagrams can pause a node, or let it go on.
use graphx_docker.Base.{
  ◌≡◌, refl, true, false, some, List, [], ◌∷◌, ◌++◌, Bytes, codes, ◌⊎◌, inl, inr, take, Bool-cases,
  Result-cases, Option-cases,
}
use graphx_docker.Attributes.{bytes_equal}
use graphx_docker.Attributes.Order.{bytes_equal→eq}
use graphx_docker.Observability.Commands.{
  Hmac, authenticate_command, command_payload, json_string_field,
}
use graphx_docker.Observability.Commands.Replay.{IsAuthentic, authenticate_command-IsAuthentic}
use graphx_docker.Observability.Export.Command.{IsCommandFor, is_control-IsCommandFor}
use graphx_docker.Observability.Export.{
  Exporter, Moment, sign, acknowledgement, run_action, is_control, run_command, control_step,
}

-- The effect of an action: the flag, and one signed answer that reports it.
abbrev pub Does : Hmac → Moment → Bytes → Bytes → Exporter → Exporter → Type 0
Does hmac moment requested command_id s s' =
    (((requested ≡ codes "pause") × (s'.paused ≡ true))
      ⊎ ((requested ≡ codes "resume") × (s'.paused ≡ false)))
    × (s'.outbox
        ≡ s.outbox
          ++ sign hmac moment (acknowledgement hmac s.node_id requested command_id s'.paused) ∷ [])

module _ (hmac : Hmac) where
  run_action_lem :
      (moment : Moment) (requested command_id : Bytes) (s : Exporter)
      → (run_action hmac moment requested command_id s ≡ s)
        ⊎ Does hmac moment requested command_id s (run_action hmac moment requested command_id s)
  unfolding run_action
  run_action_lem moment requested command_id s =
      elim (Bool-cases (bytes_equal requested (codes "pause"))) [
        | inl e ↦ rw e (inr (inl (bytes_equal→eq requested (codes "pause") e, refl), refl))
        | inr e ↦ elim (Bool-cases (bytes_equal requested (codes "resume"))) [
          | inl r ↦ rw (e, r) (inr (inr (bytes_equal→eq requested (codes "resume") r, refl), refl))
          | inr r ↦ rw (e, r) (inl refl)
        ]
      ]

  run_command_lem :
      (moment : Moment) (payload : Bytes) (s : Exporter)
      → (run_command hmac moment payload s ≡ s)
        ⊎ (IsCommandFor moment payload s
            × Does hmac moment
                (json_string_field payload (codes "action") 8)
                (json_string_field payload (codes "commandId") 36)
                s
                (run_command hmac moment payload s))
  unfolding run_command
  run_command_lem moment payload s = elim (Bool-cases (is_control hmac moment payload s)) [
    | inr e ↦ rw e (inl refl)
    | inl e ↦
        let action = json_string_field payload (codes "action") 8 in
        let command_id = json_string_field payload (codes "commandId") 36 in
        rw e (elim (run_action_lem moment action command_id s) [
          | inl same ↦ inl same
          | inr does ↦ inr (is_control-IsCommandFor hmac moment payload s e, does)
        ])
  ]

  -- A datagram changes the state of an exporter only if it is signed with the secret under a
  -- current time stamp and a nonce that is not known yet, and its payload is of the kind
  -- "control", has the text of a UUID as its id, names this node as its target, and expires at a
  -- time that has not passed and is at most 30 seconds ahead. It then pauses or resumes the node,
  -- as it says, and one answer is sent.
  pub control_step_lem :
      (arrival moment : Moment) (datagram : Bytes) (s : Exporter) (nonces : List Bytes)
      → ((control_step hmac arrival moment datagram (s, nonces)).0 ≡ s)
        ⊎ ((secret : Bytes) × (arrival.secret ≡ some secret)
            × IsAuthentic hmac (take 2048 datagram) secret nonces arrival.now
            × IsCommandFor moment (command_payload (take 2048 datagram)) s
            × Does hmac moment
                (json_string_field (command_payload (take 2048 datagram)) (codes "action") 8)
                (json_string_field (command_payload (take 2048 datagram)) (codes "commandId") 36)
                s
                (control_step hmac arrival moment datagram (s, nonces)).0)
  unfolding control_step
  control_step_lem arrival moment datagram s nonces = elim (Option-cases arrival.secret) [
    | inl e ↦ rw e (inl refl)
    | inr (secret, e) ↦
        rw e
          (elim (Result-cases
            (authenticate_command hmac (take 2048 datagram) secret nonces arrival.now)) [
              | inr (x, h) ↦ rw h (inl refl)
              | inl (left, h) ↦
                  rw h (elim (run_command_lem moment (command_payload (take 2048 datagram)) s) [
                    | inl same ↦ inl same
                    | inr (control, does) ↦
                        let (a, left_is) =
                          authenticate_command-IsAuthentic hmac _ secret nonces arrival.now h in
                        inr (secret, refl, a, control, does)
                  ])
            ])
  ]
