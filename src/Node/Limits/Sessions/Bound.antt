-- ===== src/Node/Limits/Sessions/Bound.antt =====
-- The limit of the connections of an address.
use webrtc_cdn.Prelude.{
  ℕ, ◌+◌, ◌-◌, ◌^◌, ◌<◌, ◌≤◌, false, List, [], ◌∷◌, ◌++◌, Str, ◌≡◌, ◌≢◌, sym, subst, refl, ap, ◌∙◌,
  arith, inl, inr, Bool-cases, leb, if◌then◌else◌, lookup, str_key, str_eq, str_eq_iff,
}
use webrtc_cdn.Machine.State.{State, WebrtcCdnNode, set_node}
use webrtc_cdn.Node.Limits.{Ranges, count_of, is_ip_exempted, remove_ip, on_connection_close}
use webrtc_cdn.Node.Limits.Counting.{count_of-remove_ip}
use webrtc_cdn.Node.Limits.Sessions.{
  count, Sessions, none_open, opens, refused, ends, else_happens, IsCounted, serve_http-IsCounted,
}

count-append :
    (ip : Str) (before after : List Str)
    → count ip (before ++ after) ≡ count ip before + count ip after
count-append ip [] after = omega arith
count-append ip (other ∷ before) after = omega (arith, count-append ip before after)

ip_limit-remove_ip : (ip : Str) (n : WebrtcCdnNode) → (remove_ip ip n).ip_limit ≡ n.ip_limit
unfolding remove_ip
ip_limit-remove_ip ip n = elim (Bool-cases (leb (count_of ip n) 1)) [
  | inl last ↦ rw last refl
  | inr more ↦ rw more refl
]

-- `onConnectionClose` does to the counts what `RemoveIP` does, and keeps the limit.
close_counts :
    (id : ℕ) (ip other : Str) (n : WebrtcCdnNode)
    → (count_of other (on_connection_close id ip n)
        ≡ (if str_eq ip other then count_of ip n - 1 else count_of other n))
      × ((on_connection_close id ip n).ip_limit ≡ n.ip_limit)
unfolding on_connection_close count_of
close_counts id ip other n = (count_of-remove_ip ip other n, ip_limit-remove_ip ip n)

-- The count of an address is the number of its open connections, and is within the limit.
record IsWithin (ip : Str) (ips : List Str) (s : State) : Type 0 where
  wide : s.node.ip_limit < 2 ^ 32
  counted : count ip ips ≡ count_of ip s.node
  bounded : count ip ips ≤ s.node.ip_limit

module _ (contains : Ranges) (whitelist ip : Str)
    (counts : is_ip_exempted contains whitelist ip ≡ false) where
  opens-IsWithin :
      (other : Str) (ips : List Str) (s t : State)
      → IsCounted (is_ip_exempted contains whitelist other) other s t
      → t.next_ref ≢ s.next_ref
      → IsWithin ip ips s
      → IsWithin ip (other ∷ ips) t
  opens-IsWithin other ips s t c new w = elim (Bool-cases (str_eq other ip)) [
    | inl same ↦
        let this : other ≡ ip = (str_eq_iff other ip).0 same in
        let below : count_of ip s.node < s.node.ip_limit =
          subst (λ x. count_of x s.node < s.node.ip_limit) this
            (c.below (ap (is_ip_exempted contains whitelist) this ∙ counts) new) in
        let plain : is_ip_exempted contains whitelist other ≡ false =
          ap (is_ip_exempted contains whitelist) this ∙ counts in
        record {
          wide = rw c.limit w.wide;
          counted = ground (arith, c.opened ip new, same, plain, w.counted);
          bounded = ground (arith, same, w.counted, below, c.limit);
        }
    | inr apart ↦ record {
      wide = rw c.limit w.wide;
      counted = ground (arith, c.opened ip new, apart, w.counted);
      bounded = ground (arith, apart, w.bounded, c.limit);
    }
  ]

  ends-IsWithin :
      (before after : List Str) (id : ℕ) (other : Str) (s : State)
      → IsWithin ip (before ++ (other ∷ after)) s
      → IsWithin ip (before ++ after) (set_node (on_connection_close id other s.node) s)
  ends-IsWithin before after id other s w =
      let (left, limit) = close_counts id other ip s.node in
      let all = count-append ip before (other ∷ after) in
      let rest = count-append ip before after in
      record {
        wide = rw limit w.wide;
        counted =
            ground
              (arith, left, all, rest, w.counted, ap (λ x. count_of x s.node), str_eq_iff other ip);
        bounded = ground (arith, all, rest, w.bounded, limit);
      }

  Sessions-IsWithin :
      {ips : List Str} {s : State} → Sessions contains whitelist ips s → IsWithin ip ips s
  unfolding lookup count_of
  Sessions-IsWithin (none_open empty wide) = record {
    wide = wide;
    counted = rw empty refl;
    bounded = omega arith;
  }
  Sessions-IsWithin (opens {ips = ips} {s = s} {t = t} other x run new) =
      let w = Sessions-IsWithin x in
      opens-IsWithin other ips s t (serve_http-IsCounted contains whitelist other s w.wide t run)
        new w
  Sessions-IsWithin (refused {s = s} {t = t} other x run same) =
      let w = Sessions-IsWithin x in
      let c = serve_http-IsCounted contains whitelist other s w.wide t run in
      record {
        wide = rw c.limit w.wide;
        counted = w.counted ∙ sym (c.kept ip same);
        bounded = rw c.limit w.bounded;
      }
  Sessions-IsWithin (ends {s = s} before after id other x split e) = rw e (
      ends-IsWithin before after id other s
        (subst (λ ips. IsWithin ip ips s) split (Sessions-IsWithin x)))
  Sessions-IsWithin (else_happens x same limit) =
      let w = Sessions-IsWithin x in
      record { wide = rw limit w.wide; counted = rw same w.counted; bounded = rw limit w.bounded }

  -- While every websocket request that is not refused is upgraded, the count of an address that is not
  -- exempt is the number of its open connections, and these are never more than the limit.
  pub connections-le-limit :
      (ips : List Str) (s : State)
      → Sessions contains whitelist ips s
      → (count ip ips ≡ count_of ip s.node) × (count ip ips ≤ s.node.ip_limit)
  connections-le-limit ips s x = let w = Sessions-IsWithin x in (w.counted, w.bounded)
