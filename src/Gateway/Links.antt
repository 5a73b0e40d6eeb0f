-- ===== src/Gateway/Links.antt =====
-- The magic link from the form to the sign-in: the handlers of Gateway.SignIn with the parts of auth.py and
-- mailer.py that they call.
use opendss_designer_cloud.Base.{
  ℕ, ◌+◌, ◌≤◌, ◌≡◌, refl, ap, sym, subst, ◌∙◌, String, Bool, true, Option, none, some, is_some,
  refuted,
}
use opendss_designer_cloud.Base.Text.{join, decimal}
use opendss_designer_cloud.Config.{Config}
use opendss_designer_cloud.Store.{User}
use opendss_designer_cloud.Store.Users
use opendss_designer_cloud.Store.Users.Valid.{IsValid}
use opendss_designer_cloud.Gateway.Callers.{Gateway}
use opendss_designer_cloud.Gateway.Emails.{valid_email}
use opendss_designer_cloud.Gateway.Headers.{email_signin}
use opendss_designer_cloud.Gateway.Issued.{magic_request-issued, verified}
use opendss_designer_cloud.Gateway.Mail.{Mailer, Message, send, magic_link_text}
use opendss_designer_cloud.Gateway.SignIn.{
  MagicReply, check_email, magic_request, VerifyReply, signed_in, link_used, magic_verify,
}
use opendss_designer_cloud.Gateway.Purposes.{read_magic-magic_token}
use opendss_designer_cloud.Gateway.Tokens.{
  Signer, Signs, magic_token, read_magic, magic_max_age, seconds,
}

-- The mailer after the handler: it was asked only where the reply is that of a message sent.
abbrev pub mailer_after : MagicReply → Mailer → Option Mailer → Mailer
mailer_after check_email m (some n) = n
mailer_after _ m _ = m

abbrev pub address_of : Option String → String
address_of none = ""
address_of (some a) = a

module _ {Token : Type 0} (s : Signer Token) where
  -- The message to an address; `show` is the text of a token.
  unfoldable pub link_message :
      {F : Type 0} → Config F → (Token → String) → String → String → ℕ → Message
  link_message cfg show address nonce now =
      let link =
        join cfg.public_url
          (join "/auth/magic/verify?t=" (show (magic_token s address nonce (seconds now)))) in
      record {
        to = address;
        subject = "Sign in to OpenDSS Designer";
        body = magic_link_text link 15;
      }

  -- `magic_request` on a form's field.
  unfoldable pub magic_form :
      {F : Type 0}
      → Config F
      → (Token → String)
      → (Mailer → Message → Option ℕ)
      → (Mailer → Message → Bool)
      → Gateway
      → Mailer
      → ℕ
      → String
      → String
      → String
      → MagicReply × Gateway × Mailer
  magic_form cfg show post relay g m now ip nonce field =
      let address = valid_email field in
      let mail = send post relay m (link_message cfg show (address_of address) nonce now) in
      let (reply, h) = magic_request g now (email_signin cfg) ip nonce address (is_some mail) in
      (reply, h, mailer_after reply m mail)

  -- `magic_verify` on a form's token.
  unfoldable pub magic_post : Gateway → ℕ → Token → VerifyReply × Gateway
  magic_post g now token = magic_verify g now (read_magic s token (seconds now))

-- What was mailed: a message to the address that the mailer took, with a link in its text.
pub record Mailed (post : Mailer → Message → Option ℕ) (relay : Mailer → Message → Bool)
    (m n : Mailer) (address link : String) : Type 0 where
  pub message : Message
  pub taken : send post relay m message ≡ some n
  pub to_address : message.to ≡ address
  pub front : String
  pub rear : String
  pub links : message.body ≡ join front (join link rear)

is_some_of : {A : Type 0} (o : Option A) → is_some o ≡ true → (a : A) × (o ≡ some a)
is_some_of none e = absurd (refuted e)
is_some_of (some a) e = (a, refl)

module _ {Token : Type 0} (s : Signer Token) (sg : Signs s) where
  link_message-Mailed :
      {F : Type 0} (cfg : Config F) (show : Token → String) (post : Mailer → Message → Option ℕ)
      (relay : Mailer → Message → Bool) (m n : Mailer) (address nonce : String) (made : ℕ)
      → send post relay m (link_message s cfg show address nonce made) ≡ some n
      → Mailed post relay m n address (
          join cfg.public_url
            (join "/auth/magic/verify?t=" (show (magic_token s address nonce (seconds made)))))
  unfolding link_message magic_link_text
  link_message-Mailed cfg show post relay m n address nonce made e = record {
    message = link_message s cfg show address nonce made;
    taken = e;
    to_address = refl;
    front = "Here is your sign-in link for OpenDSS Designer:\n\n    ";
    rear = join "\n\nIt works once and expires in " (
        join (decimal 15)
          " minutes. If you did not ask for it, ignore this message; nothing happens unless the link is opened.\n");
    links = refl;
  }

  posted :
      (g : Gateway) (address nonce : String) (made now : ℕ)
      → seconds made ≤ seconds now
      → seconds now ≤ seconds made + magic_max_age
      → magic_post s g now (magic_token s address nonce (seconds made))
        ≡ magic_verify g now (some (address, nonce))
  unfolding magic_post
  posted g address nonce made now a b =
      ap (magic_verify g now)
        (read_magic-magic_token s sg address nonce (seconds made) (seconds now) a b)

  -- On a valid store, once the form was answered with "check your email", the mailer has taken, whatever its
  -- mode, a message to the form's address with a link in its text, and the token of that link signs in
  -- the address, if it is used next and within a quarter of an hour; used again within that time it
  -- is refused.
  pub link_signs_in :
      {F : Type 0} (cfg : Config F) (show : Token → String) (post : Mailer → Message → Option ℕ)
      (relay : Mailer → Message → Bool) (g h : Gateway) (m n : Mailer) (made now last : ℕ)
      (ip nonce field : String)
      → IsValid g.store
      → magic_form s cfg show post relay g m made ip nonce field ≡ (check_email, h, n)
      → seconds made ≤ seconds now
      → seconds now ≤ seconds made + magic_max_age
      → seconds made ≤ seconds last
      → seconds last ≤ seconds made + magic_max_age
      → (address : String) × (token : Token) × (u : User) × (after : Gateway) × (valid_email field
          ≡ some address)
        × Mailed post relay m n address
            (join cfg.public_url (join "/auth/magic/verify?t=" (show token)))
        × (magic_post s h now token ≡ (signed_in u, after))
        × (Users.identity_user after.store "email" address ≡ some u)
        × ((magic_post s after last token).0 ≡ link_used)
  unfolding magic_form
  link_signs_in cfg show post relay g h m n made now last ip nonce field v e a b c d =
      let address = valid_email field in
      let mail = send post relay m (link_message s cfg show (address_of address) nonce made) in
      let r =
        magic_request-issued g h made (email_signin cfg) (is_some mail) ip nonce address
          (ap (λ x. (x.0, x.1)) e) in
      let w = verified g h made now nonce r.address v r.issued in
      let (taken, got) = is_some_of mail r.mailed in
      let same_mailer : taken ≡ n =
        sym (ap (λ x. mailer_after check_email m x) got)
        ∙ sym (ap (λ x. mailer_after x m mail) (ap (λ x. x.0) e))
        ∙ ap (λ x. x.2) e in
      let sent : send post relay m (link_message s cfg show r.address nonce made) ≡ some n =
        subst (λ a. send post relay m (link_message s cfg show (address_of a) nonce made) ≡ some n)
          r.valid (got ∙ ap (λ x. some x) same_mailer) in
      (
        r.address,
        magic_token s r.address nonce (seconds made),
        w.user,
        w.after,
        r.valid,
        link_message-Mailed cfg show post relay m n r.address nonce made sent,
        posted h r.address nonce made now a b ∙ w.replied,
        w.owner,
        ap (λ x. x.0) (posted w.after r.address nonce made last c d) ∙ w.once last,
      )
