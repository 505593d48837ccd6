-- ===== src/Format/Names/Laws.antt =====
-- The names in sigar_format.c tell the values apart.
use re_co_mon_b.Base.{◌≡◌, refl, sym, ap, ◌∙◌, List, [], ◌∷◌, Bytes, if◌then◌else◌, str_eq}
use re_co_mon_b.Format.Names.{
  TcpState, established, syn_sent, syn_recv, fin_wait1, fin_wait2, time_wait, close, close_wait,
  last_ack, listen, closing, idle, bound, unknown, other_state, net_connection_state_get,
}

-- The state of a name, in which all other numbers are unknown.
abbrev pub known : TcpState → TcpState
known (other_state n) = unknown
known s = s

abbrev state_of : List TcpState → Bytes → TcpState
state_of [] name = unknown
state_of (s ∷ states) name =
    if str_eq (net_connection_state_get s) name then s else state_of states name

abbrev states : List TcpState
states =
    established ∷ syn_sent ∷ syn_recv ∷ fin_wait1 ∷ fin_wait2 ∷ time_wait ∷ close ∷ close_wait
    ∷ last_ack ∷ listen ∷ closing ∷ idle ∷ bound ∷ []

back : (s : TcpState) → state_of states (net_connection_state_get s) ≡ known s
unfolding net_connection_state_get str_eq
back established = refl
back syn_sent = refl
back syn_recv = refl
back fin_wait1 = refl
back fin_wait2 = refl
back time_wait = refl
back close = refl
back close_wait = refl
back last_ack = refl
back listen = refl
back closing = refl
back idle = refl
back bound = refl
back unknown = refl
back (other_state n) = refl

-- Two states of one name are the same, where the numbers without a name of their own count as
-- unknown.
pub net_connection_state_get-injective :
    (s t : TcpState) → net_connection_state_get s ≡ net_connection_state_get t → known s ≡ known t
net_connection_state_get-injective s t e = sym (back s) ∙ ap (state_of states) e ∙ back t
