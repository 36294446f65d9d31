-- ===== src/Certificate/Connection/Finished.antt =====
-- What `setCertificateBio` and `parsePrivateKey` of openssl-dynamic/src/main/c/ssl.c leave.
use netty_tcnative.Base.{
  ℕ, ◌≡◌, subst, List, Bool, true, false, Option, none, some, not, ◌||◌, ◌&&◌, if◌then◌else◌, ◌==◌,
  arith, refl, Bool-cases, inl, inr,
}
use netty_tcnative.Base.Int.{ℤ, not_positive}
use netty_tcnative.Base.Jni.{Outcome, returned, thrown, exception}
use netty_tcnative.Callbacks.{openssl}
use netty_tcnative.Certificate.Load.{Live, Readers, counted, load_pem_key_bio, load_pem_cert_bio}
use netty_tcnative.Certificate.Load.Balance.{
  Adds, load_pem_key_bio-Adds, load_pem_cert_bio-Adds, load_pem_key_bio-any, load_pem_cert_bio-any,
}
use netty_tcnative.Certificate.Set.{bio_at}
use netty_tcnative.Certificate.Set.Reset.{Adds-then}
use netty_tcnative.Certificate.Connection.{
  j2p, SslCerts, SslAnswers, SslDone, ssl_clean_up, ssl_use_pair, ssl_with_cert, ssl_with_key,
  string_taken, ssl_set_certificate_bio, key_parsed, parse_private_key,
}

-- Whether the SSL takes the pair that was loaded.
unfoldable pub ssl_takes : SslAnswers → Option ℕ → Option ℕ → Bool
ssl_takes a none cert = false
ssl_takes a (some key) none = false
ssl_takes a (some key) (some cert) =
    a.use_certificate cert && (a.use_private_key key && a.check_private_key)

-- What a call leaves when it loaded this key and this certificate: nothing of its own, and the pair in
-- the SSL or an exception.
pub record SslFinished (taken : Bool) (key cert : Option ℕ) (s : SslCerts) (r : SslDone)
    : Type 0 where
  pub balance : Adds s.live 0 0 r.1.live
  pub outcome : r.0 ≡ (if taken then returned tt else thrown exception)
  pub installed : taken ≡ true → (r.1.certificate ≡ cert) × (r.1.private_key ≡ key)

ssl_clean_up-Adds :
    (password : Option (List ℕ)) (key cert : Option ℕ) (o : Outcome (Unit {0})) (s : SslCerts)
    (l : Live)
    → Adds (string_taken password l) (counted key) (counted cert) s.live
    → Adds l 0 0 (ssl_clean_up password key cert o s).1.live
unfolding ssl_clean_up
ssl_clean_up-Adds password key cert o s l h = ground arith

ssl_use_pair-SslFinished :
    (a : SslAnswers) (password : Option (List ℕ)) (key cert : ℕ) (s t : SslCerts)
    → Adds (string_taken password s.live) 1 1 t.live
    → SslFinished
        (ssl_takes a (some key) (some cert))
        (some key)
        (some cert)
        s
        (ssl_use_pair a password key cert t)
unfolding ssl_use_pair ssl_takes ssl_clean_up
ssl_use_pair-SslFinished a password key cert s t h = ground arith

ssl_with_cert-SslFinished :
    (a : SslAnswers) (password : Option (List ℕ)) (key : ℕ) (s : SslCerts) (r : Option ℕ × Live)
    → Adds (string_taken password s.live) 1 (counted r.0) r.1
    → SslFinished (ssl_takes a (some key) r.0) (some key) r.0 s (ssl_with_cert a password key s r)
unfolding ssl_with_cert ssl_takes ssl_clean_up
ssl_with_cert-SslFinished a password key s (none, l) h = ground arith
ssl_with_cert-SslFinished a password key s (some cert, l) h =
    ssl_use_pair-SslFinished a password key cert s (record s { live = l }) h

unread :
    (a : SslAnswers) (password : Option (List ℕ)) (cert : Option ℕ) (s : SslCerts) (l : Live)
    → Adds (string_taken password s.live) 0 0 l
    → SslFinished
        (ssl_takes a none cert)
        none
        cert
        s
        (ssl_clean_up password none none (thrown exception) (record s { live = l }))
unfolding ssl_takes ssl_clean_up
unread a password cert s l h = ground arith

ssl_with_key-SslFinished :
    (a : SslAnswers) (password : Option (List ℕ)) (load : Live → Option ℕ × Live) (cert : Option ℕ)
    (s : SslCerts) (r : Option ℕ × Live)
    → Adds (string_taken password s.live) (counted r.0) 0 r.1
    → ((l : Live) → Adds l 0 (counted (load l).0) (load l).1)
    → ((l : Live) → (load l).0 ≡ cert)
    → SslFinished (ssl_takes a r.0 cert) r.0 cert s (ssl_with_key a password load s r)
unfolding ssl_with_key
ssl_with_key-SslFinished a password load cert s (none, l) h g e = unread a password cert s l h
ssl_with_key-SslFinished a password load cert s (some key, l) h g e =
    subst
      (λ c.
        SslFinished (ssl_takes a (some key) c) (some key) c s
          (ssl_with_cert a password key s (load l)))
      (e l)
      (ssl_with_cert-SslFinished a password key s (load l)
        (Adds-then (string_taken password s.live) l (load l).1 1 (counted (load l).0) h (g l)))

ssl_read-SslFinished :
    (cert key : ℤ) (password : Option (List ℕ)) (r : Readers (Option ℕ)) (a : SslAnswers)
    (s : SslCerts)
    → SslFinished
        (ssl_takes a
          (load_pem_key_bio r password (j2p key) s.live).0
          (load_pem_cert_bio r password (j2p cert) s.live).0)
        (load_pem_key_bio r password (j2p key) s.live).0
        (load_pem_cert_bio r password (j2p cert) s.live).0
        s
        (ssl_with_key a password
          (load_pem_cert_bio r password (j2p cert))
          s
          (load_pem_key_bio r password (j2p key) (string_taken password s.live)))
ssl_read-SslFinished cert key password r a s =
    let l = string_taken password s.live in
    let x = (load_pem_cert_bio r password (j2p cert) s.live).0 in
    subst
      (λ k. SslFinished (ssl_takes a k x) k x s (
        ssl_with_key a password (load_pem_cert_bio r password (j2p cert)) s
          (load_pem_key_bio r password (j2p key) l)))
      (load_pem_key_bio-any r password (j2p key) l s.live)
      (ssl_with_key-SslFinished a password (load_pem_cert_bio r password (j2p cert)) x s
        (load_pem_key_bio r password (j2p key) l) (load_pem_key_bio-Adds r password (j2p key) l)
        (load_pem_cert_bio-Adds r password (j2p cert))
        (λ m. load_pem_cert_bio-any r password (j2p cert) m s.live))

refused :
    (password : Option (List ℕ)) (key cert : Option ℕ) (s : SslCerts)
    → SslFinished false key cert s (
        ssl_clean_up password none none
          (thrown exception)
          (record s { live = string_taken password s.live }))
unfolding ssl_clean_up
refused password key cert s = ground arith

guarded :
    (g b taken : Bool) (key cert : Option ℕ) (s : SslCerts) (r t : SslDone)
    → g ≡ b
    → SslFinished false key cert s r
    → SslFinished taken key cert s t
    → SslFinished (not b && taken) key cert s (if g then r else t)
guarded true true taken key cert s r t e h k = h
guarded true false taken key cert s r t e h k = absurd (ground arith)
guarded false true taken key cert s r t e h k = absurd (ground arith)
guarded false false taken key cert s r t e h k = k

twice : (b : Bool) → (b || b) ≡ b
twice true = refl
twice false = refl

or_false : (b : Bool) → (b || false) ≡ b
or_false true = refl
or_false false = refl

only_cert :
    (cert key : ℤ)
    → (not_positive cert || not_positive (if not_positive key then cert else key))
      ≡ not_positive cert
only_cert cert key = elim (Bool-cases (not_positive key)) [
  | inl k ↦ rw k (twice (not_positive cert))
  | inr k ↦ simp k (or_false (not_positive cert))
]

-- setCertificateBio of ssl.c, for an SSL of OpenSSL that is not NULL: it returns exactly if the `jlong` for
-- the certificate's BIO is positive, the key and the certificate are read, and OpenSSL accepts the
-- certificate, the key and the pair, and then the SSL has the two. Otherwise it throws. On every way the password, the key
-- and the certificate that it got are given back. The key is read from the BIO for the key, also when
-- that is NULL.
pub ssl_set_certificate_bio-SslFinished :
    (cert key : ℤ) (password : Option (List ℕ)) (r : Readers (Option ℕ)) (a : SslAnswers)
    (s : SslCerts)
    → SslFinished
        (not (not_positive cert)
          && ssl_takes a
              (load_pem_key_bio r password (j2p key) s.live).0
              (load_pem_cert_bio r password (j2p cert) s.live).0)
        (load_pem_key_bio r password (j2p key) s.live).0
        (load_pem_cert_bio r password (j2p cert) s.live).0
        s
        (ssl_set_certificate_bio openssl false cert key password r a s)
unfolding ssl_set_certificate_bio
ssl_set_certificate_bio-SslFinished cert key password r a s =
    guarded (not_positive cert || not_positive (if not_positive key then cert else key))
      (not_positive cert) _ _ _ s _ _ (only_cert cert key) (refused password _ _ s)
      (ssl_read-SslFinished cert key password r a s)

key_parsed-Adds :
    (password : Option (List ℕ)) (l : Live) (r : Option ℕ × Live)
    → Adds (string_taken password l) (counted r.0) 0 r.1
    → Adds l (counted r.0) 0 (key_parsed password r).1
unfolding key_parsed
key_parsed-Adds password l (none, m) h = ground arith
key_parsed-Adds password l (some key, m) h = ground arith

otherwise :
    (b : Bool) (l : Live) (keys : ℕ) (r t : Outcome ℕ × Live)
    → b ≡ false
    → Adds l keys 0 t.1
    → Adds l keys 0 (if b then r else t).1
otherwise true l keys r t e h = absurd (ground arith)
otherwise false l keys r t e h = h

-- parsePrivateKey of a BIO leaves Java the key that was read, if any, and nothing else.
pub parse_private_key-Adds :
    (bio : ℕ) (password : Option (List ℕ)) (r : Readers (Option ℕ)) (l : Live)
    → (bio == 0) ≡ false
    → Adds l
        (counted (load_pem_key_bio r password (bio_at bio) l).0)
        0
        (parse_private_key bio password r l).1
unfolding parse_private_key
parse_private_key-Adds bio password r l h = otherwise (bio == 0) l _ _ _ h (
    subst
      (λ k.
        Adds l (counted k) 0
          (key_parsed password
            (load_pem_key_bio r password (bio_at bio) (string_taken password l))).1)
      (load_pem_key_bio-any r password (bio_at bio) (string_taken password l) l)
      (key_parsed-Adds password l _
        (load_pem_key_bio-Adds r password (bio_at bio) (string_taken password l))))
