-- ===== src/Listener/Socks5/Secure.antt =====
-- What a client must have sent where the listener has users.
use mathlib.Core.List.{append_assoc}
use gorp.Prelude.{
  ℕ, zero, suc, ◌≡◌, refl, sym, ap, ◌∙◌, ◌≤◌, Bool, true, false, [], ◌∷◌, ◌++◌, Option, none, some,
  arith, is_empty, ==_iff, ◌==◌, length, length-take, take-append-drop, ltb, take, drop, Bool-cases,
  inl, inr,
}
use gorp.Listener.Socks5.{
  Bytes, Conn, Result, ok, err, Failure, M, and_then, guard, byte_at, read_full, write, written,
  contains, negotiate, Target, tunnel, handle_connection, after_negotiation, after_request,
  read_connect_request, authenticate_user_pass, Users, password_of, is_password, bytes_eq,
  bad_version, bad_credentials,
}
use gorp.Listener.Socks5.Client.{greeting, credentials}

read_full-input :
    (n : ℕ) (c c' : Conn) (bs : Bytes)
    → read_full n c ≡ (c', ok bs)
    → (c.input ≡ bs ++ c'.input) × (length bs ≡ n)
unfolding read_full
read_full-input n c c' bs h = elim (Bool-cases (ltb (length c.input) n)) [
  | inl e ↦ cc (rw e at h)
  | inr e ↦
      let enough : n ≤ length c.input = ground arith in
      let h' : (record c { input = drop n c.input }, ok (take n c.input)) ≡ (c', ok bs) =
        rw e at h in
      let taken : take n c.input ≡ bs = cc h' in
      let left : drop n c.input ≡ c'.input = ap (λ p. p.0.input) h' in
      (
        rw (← taken, ← left) (sym (take-append-drop n c.input)),
        rw (← taken) (length-take n c.input enough),
      )
]

read_then :
    {B G : Type 0} (n : ℕ) (f : Bytes → M B) (c c' : Conn) (b : B)
    → ((bs : Bytes) (d : Conn) → c.input ≡ bs ++ d.input → length bs ≡ n → f bs d ≡ (c', ok b) → G)
    → and_then (read_full n c) f ≡ (c', ok b)
    → G
unfolding and_then
read_then {G = G} n f c c' b k h = read_result (read_full n c) refl h
  where
    read_result : (p : Conn × Result Bytes) → read_full n c ≡ p → and_then p f ≡ (c', ok b) → G
    read_result (d, ok bs) e h' =
        let (taken, size) = read_full-input n c d bs e in k bs d taken size h'
    read_result (d, err e') e h' = absurd (cc h')

guard_then :
    {B G : Type 0} (t : Bool) (e : Failure) (f : Unit {0} → M B) (c c' : Conn) (b : B)
    → (t ≡ true → f tt c ≡ (c', ok b) → G)
    → and_then (guard t e c) f ≡ (c', ok b)
    → G
unfolding and_then
guard_then true e f c c' b k h = k refl h
guard_then false e f c c' b k h = absurd (cc h)

written-input :
    (bs : Bytes) (c c' : Conn) (room : ℕ) (r : Result (Unit {0}))
    → written bs c room ≡ (c', r)
    → c.input ≡ c'.input
written-input bs c c' zero r h = ap (λ p. p.0.input) h
written-input bs c c' (suc room) r h = ap (λ p. p.0.input) h

write-input :
    (bs : Bytes) (c c' : Conn) (r : Result (Unit {0})) → write bs c ≡ (c', r) → c.input ≡ c'.input
unfolding write
write-input bs c c' r h = written-input bs c c' c.room r h

write_then :
    {B G : Type 0} (bs : Bytes) (f : Unit {0} → M B) (c c' : Conn) (b : B)
    → ((d : Conn) → c.input ≡ d.input → f tt d ≡ (c', ok b) → G)
    → and_then (write bs c) f ≡ (c', ok b)
    → G
unfolding and_then
write_then {G = G} bs f c c' b k h = write_result (write bs c) refl h
  where
    write_result : (p : Conn × Result (Unit {0})) → write bs c ≡ p → and_then p f ≡ (c', ok b) → G
    write_result (d, ok _) e h' = k d (write-input bs c d (ok tt) e) h'
    write_result (d, err e') e h' = absurd (cc h')

bytes_eq_sound : (as' bs : Bytes) → bytes_eq as' bs ≡ true → as' ≡ bs
unfolding bytes_eq
bytes_eq_sound [] [] h = refl
bytes_eq_sound [] (b ∷ bs) h = cc h
bytes_eq_sound (a ∷ as') [] h = cc h
bytes_eq_sound (a ∷ as') (b ∷ bs) h = elim (Bool-cases (a == b)) [
  | inl e ↦
      let same : a ≡ b = (==_iff a b).0 e in
      let rest : as' ≡ bs = bytes_eq_sound as' bs (rw e at h) in cc
  | inr e ↦ cc (rw e at h)
]

password-known : (given : Bytes) (p : Option Bytes) → is_password given p ≡ true → p ≡ some given
password-known given none h = cc h
password-known given (some p) h = ap some (bytes_eq_sound p given h)

-- The parts of the credentials, as the reads take them.
credentials_of :
    (header user size password i j k l m : Bytes)
    → i ≡ header ++ j
    → length header ≡ 2
    → byte_at 0 header ≡ 1
    → j ≡ user ++ k
    → length user ≡ byte_at 1 header
    → k ≡ size ++ l
    → length size ≡ 1
    → l ≡ password ++ m
    → length password ≡ byte_at 0 size
    → i ≡ credentials user password ++ m
credentials_of (a ∷ b ∷ []) user (s ∷ []) password i j k l m hi _ one hj hb hk _ hl hs =
    rw (hi, hj, hk, hl, one, hb, hs, append_assoc user (s ∷ password) m) refl
credentials_of [] user size password i j k l m hi two one hj hb hk single hl hs =
    absurd (omega (arith, two))
credentials_of (a ∷ []) user size password i j k l m hi two one hj hb hk single hl hs =
    absurd (omega (arith, two))
credentials_of (a ∷ b ∷ c ∷ bs) user size password i j k l m hi two one hj hb hk single hl hs =
    absurd (omega (arith, two))
credentials_of (a ∷ b ∷ []) user [] password i j k l m hi two one hj hb hk single hl hs =
    absurd (omega (arith, single))
credentials_of (a ∷ b ∷ []) user (s ∷ t ∷ r) password i j k l m hi two one hj hb hk single hl hs =
    absurd (omega (arith, single))

-- The connection's bytes begin with a user's name and password.
abbrev Authenticated : Users → Bytes → Bytes → Type 0
Authenticated users before after =
    (user password : Bytes) × (password_of user users ≡ some password)
    × (before ≡ credentials user password ++ after)

last_guard :
    (t : Bool) (e : Failure) (c c' : Conn) → guard t e c ≡ (c', ok tt) → (t ≡ true) × (c ≡ c')
last_guard true e c c' h = (refl, ap (λ p. p.0) h)
last_guard false e c c' h = absurd (cc h)

authenticated :
    (users : Users) (c c' : Conn)
    → authenticate_user_pass users c ≡ (c', ok tt)
    → Authenticated users c.input c'.input
unfolding authenticate_user_pass
authenticated users c c' = read_then 2 _ c c' tt λ header c1 in1 two.
    guard_then (byte_at 0 header == 1) bad_version _ c1 c' tt λ version.
      read_then (byte_at 1 header) _ c1 c' tt λ user c2 in2 size2.
        read_then 1 _ c2 c' tt λ size c3 in3 single.
          read_then (byte_at 0 size) _ c3 c' tt λ password c4 in4 size4.
            write_then _ _ c4 c' tt λ c5 in5 h.
              let (valid, same) = last_guard _ bad_credentials c5 c' h in
              let left : c4.input ≡ c'.input = in5 ∙ ap (λ d. d.input) same in
              (
                user,
                password,
                password-known password (password_of user users) valid,
                credentials_of header user size password c.input c1.input c2.input c3.input c'.input
                    in1 two ((==_iff _ 1).0 version) in2 size2 in3 single
                    (in4 ∙ ap (λ i. password ++ i) left) size4,
              )

greeting_of :
    (header methods i j k : Bytes)
    → i ≡ header ++ j
    → length header ≡ 2
    → byte_at 0 header ≡ 5
    → j ≡ methods ++ k
    → length methods ≡ byte_at 1 header
    → i ≡ greeting methods ++ k
greeting_of [] methods i j k hi two five hj size = absurd (omega (arith, two))
greeting_of (a ∷ []) methods i j k hi two five hj size = absurd (omega (arith, two))
greeting_of (a ∷ b ∷ []) methods i j k hi two five hj size = rw (hi, hj, five, size) refl
greeting_of (a ∷ b ∷ c ∷ bs) methods i j k hi two five hj size = absurd (omega (arith, two))

-- What the client sent up to the request.
abbrev pub Opens : Users → Bytes → Bytes → Type 0
Opens users before after =
    (methods user password : Bytes) × (contains 2 methods ≡ true)
    × (password_of user users ≡ some password)
    × (before ≡ greeting methods ++ (credentials user password ++ after))

negotiated :
    (users : Users) (c c' : Conn)
    → is_empty users ≡ false
    → negotiate users c ≡ (c', ok tt)
    → Opens users c.input c'.input
unfolding negotiate
negotiated users c c' some_user = read_then 2 _ c c' tt λ header c1 in1 two.
    guard_then (byte_at 0 header == 5) bad_version _ c1 c' tt λ version.
      read_then (byte_at 1 header) _ c1 c' tt λ methods c2 in2 size h.
        elim (Bool-cases (contains 2 methods)) [
          | inl offers ↦
              let h' : and_then (write (5 ∷ 2 ∷ []) c2) (λ _. authenticate_user_pass users)
                  ≡ (c', ok tt) =
                rw (some_user, offers) at h in
              write_then (5 ∷ 2 ∷ []) (λ _. authenticate_user_pass users) c2 c' tt
                (λ c3 in3 rest.
                  let (user, password, known, bytes) = authenticated users c3 c' rest in
                  (
                    methods,
                    user,
                    password,
                    offers,
                    known,
                    greeting_of header methods c.input c1.input
                        (credentials user password ++ c'.input) in1 two ((==_iff _ 5).0 version)
                        (in2 ∙ ap (λ i. methods ++ i) (in3 ∙ bytes)) size,
                  ))
                h'
          | inr other ↦ absurd (cc (rw (some_user, other) at h))
        ]

after_negotiation-tunnel :
    (dial : Target → Option (Option (Bytes × ℕ))) (n : Conn × Result (Unit {0})) (c' : Conn)
    (t : Target)
    → after_negotiation dial n ≡ (c', tunnel t)
    → (d : Conn) × (n ≡ (d, ok tt))
after_negotiation-tunnel dial (d, ok _) c' t h = (d, refl)
after_negotiation-tunnel dial (d, err e) c' t h = absurd (cc h)

-- Where the listener has users, a connection comes to a tunnel only if the client offered the method
-- of user and password and then sent the name and the password of one of the users, and the request
-- was read from the bytes after these.
pub handle_connection-Opens :
    (dial : Target → Option (Option (Bytes × ℕ))) (users : Users) (c c' : Conn) (t : Target)
    → is_empty users ≡ false
    → handle_connection dial users c ≡ (c', tunnel t)
    → (d : Conn) × Opens users c.input d.input
      × (handle_connection dial users c ≡ after_request dial (read_connect_request d))
unfolding handle_connection
handle_connection-Opens dial users c c' t some_user h =
    let (d, done) = after_negotiation-tunnel dial (negotiate users c) c' t h in
    (d, negotiated users c d some_user done, ap (λ n. after_negotiation dial n) done)
