-- ===== src/Guard/Address.antt =====
-- Which addresses the guard lets through.
use pulse_keeper.Prelude.{All, List, Text, arith, false, has_text, some, text_eq_sound, ◌↔◌, ◌≡◌}
use pulse_keeper.Checked.{
  >>=-eq-ok, >>=-eq-ok_unit, check_each, check_each-ok, check_each_of_All, fail_if, fail_if-eq-ok,
  from_option, ok,
}
use pulse_keeper.Web.{WebLib}
use pulse_keeper.Guard.{
  allowed_range, assert_address_allowed, blocked_addresses, judge_address, unwrap,
}

module _ (web : WebLib) where
  -- A readable address that is, once unwrapped, public unicast and no metadata endpoint.
  abbrev pub IsPublic : Text → Type 0
  IsPublic address =
      (ip : web.Ip) × (web.parse_ip address ≡ some ip)
      × (web.ip_range (unwrap web ip) ≡ allowed_range)
      × (has_text blocked_addresses (web.ip_text (unwrap web ip)) ≡ false)

  judge_address_sound :
      (ip : web.Ip) (context : Text)
      → judge_address web ip context ≡ ok tt
      → (web.ip_range ip ≡ allowed_range) × (has_text blocked_addresses (web.ip_text ip) ≡ false)
  unfolding judge_address
  judge_address_sound ip context h =
      let (u, clear, more) = >>=-eq-ok_unit (fail_if _ _) _ h in
      let in_range = fail_if-eq-ok _ _ tt more in
      (text_eq_sound _ _ (ground (arith, in_range)), fail_if-eq-ok _ _ tt clear)

  judge_address_complete :
      (ip : web.Ip) (context : Text)
      → web.ip_range ip ≡ allowed_range
      → has_text blocked_addresses (web.ip_text ip) ≡ false
      → judge_address web ip context ≡ ok tt
  unfolding judge_address
  judge_address_complete ip context r b = rw (b, r)

  -- An address passes the guard exactly when it is public.
  pub assert_address_allowed_iff :
      (address context : Text)
      → (assert_address_allowed web address context ≡ ok tt) ↔ IsPublic address
  unfolding assert_address_allowed
  assert_address_allowed_iff address context = (
    λ h.
        let (ip, parsed, judged) = >>=-eq-ok (from_option (web.parse_ip address) _) _ h in
        let (r, b) = judge_address_sound (unwrap web ip) context judged in
        (ip, ground (arith, parsed), r, b),
    λ p. rw p.1 (judge_address_complete (unwrap web p.0) context p.2 p.3),
  )

  pub check_each-IsPublic :
      (addresses : List Text) (context : Text)
      → check_each (λ x. assert_address_allowed web x context) addresses ≡ ok tt
      → All IsPublic addresses
  check_each-IsPublic addresses context =
      check_each-ok _ addresses (λ a. (assert_address_allowed_iff a context).0)

  pub check_each_of_IsPublic :
      (addresses : List Text) (context : Text)
      → All IsPublic addresses
      → check_each (λ x. assert_address_allowed web x context) addresses ≡ ok tt
  check_each_of_IsPublic addresses context =
      check_each_of_All _ addresses (λ a. (assert_address_allowed_iff a context).1)
