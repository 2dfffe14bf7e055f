-- ===== src/Sso/Mock.antt =====
-- The stand-in for the OA's login (`MockSsoProvider` of sd-agent/sd_agent/sso/service.py): it gives
-- tickets for one person, each of which is exchanged once. Its state is the dict of open tickets.
use sd_platform.Common.{
  ℕ, String, ◌||◌, List, [], ◌∷◌, Option, none, some, ltb, str_eq, if◌then◌else◌, value_error,
  Result, ok, err, is_empty,
}
use sd_platform.Common.Actions.{Exec}
use sd_platform.Sso.{SsoExternalIdentity, SsoProvider, sso_error}

abbrev pub Tickets : Type 0
Tickets = List (String × SsoExternalIdentity)

abbrev found_ticket : String → Tickets → Option SsoExternalIdentity
found_ticket ticket [] = none
found_ticket ticket ((t, identity) ∷ tickets) =
    let rest = found_ticket ticket tickets in if str_eq t ticket then some identity else rest

abbrev without_ticket : String → Tickets → Tickets
without_ticket ticket [] = []
without_ticket ticket ((t, identity) ∷ tickets) =
    let rest = without_ticket ticket tickets in
    if str_eq t ticket then rest else (t, identity) ∷ rest

-- `MockSsoProvider.__init__`: the id of its person
unfoldable pub new_mock : ℕ → Result ℕ
new_mock person_id =
    if ltb 0 person_id then ok person_id else err (value_error "stub person_id must be positive")

-- `MockSsoProvider.authorize`, which draws a ticket
unfoldable pub authorize : (person_id : ℕ) (ticket state nonce : String) → Exec Tickets String
authorize person_id ticket state nonce tickets =
    if is_empty state || is_empty nonce then (err (sso_error "SSO_STATE_INVALID"), tickets) else (
      ok ticket,
      (ticket, record { person_id = person_id; nonce = nonce }) ∷ without_ticket ticket tickets,
    )

-- `MockSsoProvider.exchange_ticket`
unfoldable pub exchange_ticket : String → Exec Tickets SsoExternalIdentity
exchange_ticket ticket tickets = elim (found_ticket ticket tickets) [
  | none ↦ (err (sso_error "SSO_TICKET_INVALID"), tickets)
  | some identity ↦ (ok identity, without_ticket ticket tickets)
]

-- The provider that the service is given. `url` is the text that `authorization_url` builds with
-- urllib.
abbrev pub mock_provider : (url : String → String → String) → SsoProvider Tickets
mock_provider url = record { authorization_url = url; exchange_ticket = exchange_ticket }
