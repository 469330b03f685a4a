-- ===== src/Enroll/Joining.antt =====
-- The requests of src/enroll.ts about invitations: /enroll/reload, /enroll/register-invite and
-- /enroll/join.
use Prim.Native.String
use inter_claude_connector.Base.{
  ℕ, ◌+◌, ◌*◌, String, Bool, false, not, Option, none, some, ◌==◌, ltb, nat_eq, if◌then◌else◌,
  truthy, is_text,
}
use inter_claude_connector.Dict.{Dict, get, set, delete}
use inter_claude_connector.Enroll.{
  EnrollmentEntry, JoinEntry, Enrollments, EnrollReply, refused, challenged, accepted,
  check_rate_limit,
}

-- The header that /enroll/reload and /enroll/register-invite ask for.
abbrev pub is_admin : (reload_token header : Option String) → Bool
is_admin reload_token header = elim (truthy reload_token) [
  | none ↦ false
  | some token ↦ is_text header (String.◌++◌ "Bearer " token)
]

-- POST /enroll/reload; `peers` has the URLs of the configuration on disk.
unfoldable pub reload :
    (reload_token header : Option String) (peers : Dict String)
    → Enrollments
    → EnrollReply × Enrollments
reload reload_token header peers s =
    if is_admin reload_token header
    then (accepted, record s { peer_configs = peers })
    else (refused 401, s)

-- The body of a request about an invitation.
pub record JoinBody : Type 0 where
  pub identity : Option String
  pub join_token : Option String
  pub ip : Option String
  pub port : ℕ
  pub http_url : Option String
  pub ca_address : Option String

abbrev pub join_ttl : ℕ
join_ttl = 15 * 60 * 1000

-- POST /enroll/register-invite
unfoldable pub register_invite :
    (reload_token header : Option String) (now : ℕ)
    → Option JoinBody
    → Enrollments
    → EnrollReply × Enrollments
register_invite reload_token header now body s =
    if not (is_admin reload_token header) then (refused 401, s) else elim body [
      | none ↦ (refused 400, s)
      | some b ↦ elim (truthy b.identity) [
        | none ↦ (refused 400, s)
        | some identity ↦ elim (truthy b.join_token) [
          | none ↦ (refused 400, s)
          | some token ↦ elim (truthy b.ip) [
            | none ↦ (refused 400, s)
            | some ip ↦
                let invite : JoinEntry = record {
                  identity = identity;
                  join_token = token;
                  ip = ip;
                  port = if nat_eq b.port 0 then 3179 else b.port;
                  expires_at = now + join_ttl;
                } in
                (accepted, record s { join_tokens = set identity invite s.join_tokens })
          ]
        ]
      ]
    ]

-- POST /enroll/join for an invitation that is there and has not expired.
unfoldable pub accept_join :
    (now ttl : ℕ) (id challenge identity : String)
    → JoinBody
    → Enrollments
    → EnrollReply × Enrollments
accept_join now ttl id challenge identity b s =
    let (ok, limits) = check_rate_limit now identity s.rate_limits in
    let limited = record s { rate_limits = limits } in
    let entry : EnrollmentEntry = record {
      identity = identity;
      challenge = challenge;
      ca_address = truthy b.ca_address;
      expires_at = now + ttl;
    } in
    if not ok then (refused 429, limited) else (
      challenged id challenge,
      record limited {
        peer_configs = elim (truthy b.http_url) [
          | none ↦ s.peer_configs
          | some url ↦ set identity url s.peer_configs
        ];
        enrollments = set id entry s.enrollments;
      },
    )

-- POST /enroll/join
unfoldable pub join :
    (now ttl : ℕ) (id challenge : String)
    → Option JoinBody
    → Enrollments
    → EnrollReply × Enrollments
join now ttl id challenge none s = (refused 400, s)
join now ttl id challenge (some b) s = elim (truthy b.identity) [
  | none ↦ (refused 400, s)
  | some identity ↦ elim (truthy b.join_token) [
    | none ↦ (refused 400, s)
    | some token ↦ elim (get identity s.join_tokens) [
      | none ↦ (refused 403, s)
      | some invite ↦
          let rest = delete identity s.join_tokens in
          let result = accept_join now ttl id challenge identity b s in
          if not (invite.join_token == token)
          then (refused 403, s)
          else if ltb invite.expires_at now
          then (refused 403, record s { join_tokens = rest })
          else result
    ]
  ]
]
