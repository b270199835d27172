-- ===== src/Wifi/Events.antt =====
-- main/wifi_sta.c: what the link's events lead to.
use tab5_client.Prelude.{
  ℕ, ◌+◌, ◌≡◌, inl, inr, Bool, true, false, ◌||◌, List, [], ◌∷◌, ◌++◌, arith, if◌then◌else◌,
  Bool-cases,
}
use tab5_client.Wifi.{
  Wifi, Event, sta_start, sta_disconnected, got_ip, other_event, Call, esp_wifi_connect,
  ntrip_client_start, web_server_start, on_event, ip_str,
}

unfoldable pub on_events : Wifi → List Event → Wifi × List Call
on_events w [] = (w, [])
on_events w (e ∷ es) = let (w', cs) = on_event w e in let (r, ds) = on_events w' es in (r, cs ++ ds)

-- How often the services are started.
abbrev starts_of : Call → ℕ
starts_of esp_wifi_connect = 0
starts_of ntrip_client_start = 1
starts_of web_server_start = 0

abbrev pub starts : List Call → ℕ
starts [] = 0
starts (c ∷ cs) = starts_of c + starts cs

abbrev web_starts_of : Call → ℕ
web_starts_of esp_wifi_connect = 0
web_starts_of ntrip_client_start = 0
web_starts_of web_server_start = 1

abbrev pub web_starts : List Call → ℕ
web_starts [] = 0
web_starts (c ∷ cs) = web_starts_of c + web_starts cs

abbrev connects_of : Call → ℕ
connects_of esp_wifi_connect = 1
connects_of ntrip_client_start = 0
connects_of web_server_start = 0

abbrev pub connects : List Call → ℕ
connects [] = 0
connects (c ∷ cs) = connects_of c + connects cs

-- What a list of events says.
abbrev pub got_any : List Event → Bool
got_any [] = false
got_any (sta_start ∷ es) = got_any es
got_any (sta_disconnected ∷ es) = got_any es
got_any (got_ip a b c d ∷ es) = true
got_any (other_event ∷ es) = got_any es

-- Whether the last change of the link was an address, the link having been `up` before.
abbrev pub last_up : Bool → List Event → Bool
last_up up [] = up
last_up up (sta_start ∷ es) = last_up up es
last_up up (sta_disconnected ∷ es) = last_up false es
last_up up (got_ip a b c d ∷ es) = last_up true es
last_up up (other_event ∷ es) = last_up up es

abbrev pub tries : List Event → ℕ
tries [] = 0
tries (sta_start ∷ es) = tries es + 1
tries (sta_disconnected ∷ es) = tries es + 1
tries (got_ip a b c d ∷ es) = tries es
tries (other_event ∷ es) = tries es

abbrev one_if : Bool → ℕ
one_if true = 1
one_if false = 0

starts-append : (xs ys : List Call) → starts (xs ++ ys) ≡ starts xs + starts ys
starts-append [] ys = omega arith
starts-append (x ∷ xs) ys = omega (arith, starts-append xs ys)

web_starts-append : (xs ys : List Call) → web_starts (xs ++ ys) ≡ web_starts xs + web_starts ys
web_starts-append [] ys = omega arith
web_starts-append (x ∷ xs) ys = omega (arith, web_starts-append xs ys)

connects-append : (xs ys : List Call) → connects (xs ++ ys) ≡ connects xs + connects ys
connects-append [] ys = omega arith
connects-append (x ∷ xs) ys = omega (arith, connects-append xs ys)

-- What a run did, from whether the services had been started.
abbrev pub Followed : Wifi → List Event → Wifi × List Call → Type 0
Followed w es (r, cs) =
    (r.connected ≡ last_up w.connected es)
    × (r.services_started ≡ (w.services_started || got_any es))
    × (starts cs ≡ (if w.services_started then 0 else if got_any es then 1 else 0))
    × (web_starts cs ≡ starts cs)
    × (connects cs ≡ tries es)

-- Over any events, the link counts as connected exactly if its last change was an address, or if
-- it did before and there was none; the client and the web server are started once if an address
-- came and they had not been started before, and never otherwise; and each start and each loss of
-- the link leads to one attempt to connect.
pub on_events-Followed : (es : List Event) (w : Wifi) → Followed w es (on_events w es)
unfolding on_events on_event
on_events-Followed [] w = ground arith
on_events-Followed (sta_start ∷ es) w = ground (arith, on_events-Followed es w)
on_events-Followed (sta_disconnected ∷ es) w =
    ground (arith, on_events-Followed es (record w { connected = false }))
on_events-Followed (got_ip a b c d ∷ es) w =
    let w' = record w { ip = ip_str a b c d; connected = true; services_started = true } in
    elim (Bool-cases w.services_started) [
      | inl s ↦ ground (arith, s, on_events-Followed es w')
      | inr s ↦ ground (arith, s, on_events-Followed es w')
    ]
on_events-Followed (other_event ∷ es) w = on_events-Followed es w
