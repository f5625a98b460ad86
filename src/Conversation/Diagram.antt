-- ===== src/Conversation/Diagram.antt =====
-- The diagram of the phases, and the change of the stored sessions along it
-- (backend/gateway/src/conversation.ts).
use nzela.Base.{
  ◌≡◌, ◌≢◌, refl, sym, subst, ◌∙◌, Option, none, some, String, arith, or_else, ===_iff, ===_refl,
}
use nzela.Dict.{lookup, lookup-erase, lookup-insert_self, lookup-insert_ne}
use nzela.Sessions.{
  Phase, idle, selecting_restaurant, browsing_menu, cart_review, awaiting_address, awaiting_payment,
  placed, Session, Sessions, empty_session, session_of, save_session, reset_session,
}

-- The arrows of the diagram; a message may also leave the phase as it is.
pub data PhaseStep : Phase → Phase → Type 0 where
  stay : {p : Phase} → PhaseStep p p
  reset : {p : Phase} → PhaseStep p idle
  list_restaurants : PhaseStep idle selecting_restaurant
  choose_restaurant : PhaseStep selecting_restaurant browsing_menu
  add_first : PhaseStep browsing_menu cart_review
  ask_address : PhaseStep browsing_menu awaiting_address
  ask_address_reviewed : PhaseStep cart_review awaiting_address
  place_known : PhaseStep browsing_menu awaiting_payment
  place_reviewed : PhaseStep cart_review awaiting_payment
  place_located : PhaseStep awaiting_address awaiting_payment
  order_again : PhaseStep awaiting_payment selecting_restaurant
  order_again_placed : PhaseStep placed selecting_restaurant

-- The sessions `m'` are `m`, but for an arrow of the customer `wa`, whose session was `s`.
abbrev pub Moved : String → Session → Sessions → Sessions → Type 0
Moved wa s m m' =
    ((k : String) → wa ≢ k → lookup k m' ≡ lookup k m) × PhaseStep s.phase (session_of m' wa).phase

pub saved-Moved :
    (wa : String) (s s' : Session) (m m' : Sessions)
    → s'.wa_id ≡ wa
    → PhaseStep s.phase s'.phase
    → Moved wa s m m'
    → Moved wa s m (save_session m' s')
unfolding save_session session_of
saved-Moved wa s s' m m' id step (off, _) = (
  (λ k ne. lookup-insert_ne s'.wa_id k s' m' (λ e. ne (sym id ∙ e)) ∙ off k ne),
  subst (λ (o : Option Session). PhaseStep s.phase (or_else o (empty_session wa)).phase)
      (sym (
        subst (λ w. lookup w (save_session m' s') ≡ some s') id
          (lookup-insert_self s'.wa_id s' m')))
      step,
)

pub reset-Moved : (wa : String) (s : Session) (m : Sessions) → Moved wa s m (reset_session m wa)
unfolding reset_session session_of empty_session
reset-Moved wa s m = (
  (λ k ne. ground (arith, lookup-erase wa k m, ===_iff wa k)),
  subst (λ (o : Option Session). PhaseStep s.phase (or_else o (empty_session wa)).phase)
      (sym (gone wa m)) reset,
)
  where
    gone : (wa : String) (m : Sessions) → lookup wa (reset_session m wa) ≡ none
    gone wa m = ground (arith, lookup-erase wa wa m, ===_refl wa)

pub kept-Moved : (wa : String) (m : Sessions) → Moved wa (session_of m wa) m m
kept-Moved wa m = ((λ k ne. refl), stay)
