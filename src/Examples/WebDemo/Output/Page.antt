-- ===== src/Examples/WebDemo/Output/Page.antt =====
-- send_headers and generate_top_matter of httpd-simple.c as the chunks that they enqueue. The text of
-- the board is one of the build; that of the link to the MQTT service is made at the start.
use nsdscourse.Base.{
  ℕ, ◌≤◌, ◌≡◌, refl, ap, sym, ◌∙◌, subst, true, false, Option, none, some, List, [], ◌∷◌, ◌++◌,
  append_assoc, append-nil, length, concat, map, All,
}
use nsdscourse.Contiki.Mqtt.Text.{codes}
use nsdscourse.Examples.WebDemo.Output.{Output, enqueue_chunk, IsStream, enqueue_chunk-IsStream}

abbrev pub redirect : Option (List ℕ) → List (List ℕ)
redirect none = []
redirect (some redir) = (codes "Location: " ++ (redir ++ codes "\r\n")) ∷ []

-- The chunks of send_headers but the last, which goes out at once.
abbrev pub header_chunks :
    List ℕ → List ℕ → List ℕ → Option (List ℕ) → List (List ℕ) → List (List ℕ)
header_chunks board statushdr content_type redir additional =
    (statushdr ∷ codes "Server: Contiki, " ∷ (board ++ codes "\r\n") ∷ [])
    ++ (redirect redir
        ++ (additional ++ ((codes "Content-type: " ++ (content_type ++ codes "; ")) ∷ [])))

abbrev pub last_header : List ℕ
last_header = codes "charset=UTF-8\r\n\r\n"

-- A link to a page, by its file name and title.
abbrev pub page_link : List ℕ × List ℕ → List ℕ
page_link (filename, title) =
    codes "[ <a href=\"" ++ (filename ++ (codes "\">" ++ (title ++ codes "</a> ]")))

abbrev pub page_links : List ℕ × List ℕ → List (List ℕ × List ℕ) → List (List ℕ)
page_links page pages = page_link page ∷ map (λ next. codes " | " ++ page_link next) pages

abbrev pub top_matter_start : List ℕ → List (List ℕ)
top_matter_start title =
    codes "<!DOCTYPE html>" ∷ codes "<html><head>" ∷ codes "<title>" ∷ title ∷ codes "</title>" ∷ []

abbrev pub top_matter_head : List (List ℕ)
top_matter_head =
    codes "<meta charset=\"UTF-8\">" ∷ codes "</head>" ∷ codes "<body>" ∷ codes "<div><p>" ∷ []

abbrev pub top_matter_end : List ℕ → List (List ℕ)
top_matter_end mqtt_a = (codes " | " ++ mqtt_a) ∷ codes "</p></div>" ∷ []

abbrev pub top_matter_chunks :
    List ℕ → List (List ℕ) → List ℕ × List ℕ → List (List ℕ × List ℕ) → List ℕ → List (List ℕ)
top_matter_chunks title css page pages mqtt_a =
    top_matter_start title
    ++ (css ++ (top_matter_head ++ (page_links page pages ++ top_matter_end mqtt_a)))

-- Texts with a separator between them.
abbrev pub join : List ℕ → List ℕ → List (List ℕ) → List ℕ
join sep text [] = text
join sep text (next ∷ texts) = text ++ (sep ++ join sep next texts)

module _ (size : ℕ) where
  abbrev pub enqueue_all : List (List ℕ) → Output → Output
  enqueue_all [] o = o
  enqueue_all (text ∷ texts) o = enqueue_all texts (enqueue_chunk size false text o)

  pub enqueue_all-IsStream :
      (texts : List (List ℕ)) (o : Output) (before : List ℕ)
      → All (λ text. length text ≤ size) texts
      → IsStream size o before
      → IsStream size (enqueue_all texts o) (before ++ concat texts)
  enqueue_all-IsStream [] o before h s = subst (IsStream size o) (sym (append-nil before)) s
  enqueue_all-IsStream (text ∷ texts) o before h s =
      subst (IsStream size (enqueue_all (text ∷ texts) o)) (append_assoc before text (concat texts))
        (enqueue_all-IsStream texts _ (before ++ text) h.1
          (enqueue_chunk-IsStream size false text o before h.0 s).0)

  unfoldable pub send_headers :
      List ℕ → List ℕ → List ℕ → Option (List ℕ) → List (List ℕ) → Output → Output
  send_headers board statushdr content_type redir additional o =
      enqueue_chunk size true last_header
        (enqueue_all (header_chunks board statushdr content_type redir additional) o)

  unfoldable pub generate_top_matter :
      List ℕ → List (List ℕ) → List ℕ × List ℕ → List (List ℕ × List ℕ) → List ℕ → Output → Output
  generate_top_matter title css page pages mqtt_a =
      enqueue_all (top_matter_chunks title css page pages mqtt_a)

  -- The status line and the header fields that send_headers is given go out whole and in order behind
  -- what was there before, with nothing left to wait, if each chunk fits the buffer.
  pub send_headers-sent :
      (board statushdr content_type : List ℕ) (redir : Option (List ℕ)) (additional : List (List ℕ))
      (o : Output) (before : List ℕ)
      → All
          (λ text. length text ≤ size)
          (header_chunks board statushdr content_type redir additional)
      → length last_header ≤ size
      → IsStream size o before
      → (concat (send_headers board statushdr content_type redir additional o).sends
          ≡ before
            ++ (concat (header_chunks board statushdr content_type redir additional)
                ++ last_header))
        × ((send_headers board statushdr content_type redir additional o).buf ≡ [])
  unfolding send_headers
  send_headers-sent board statushdr content_type redir additional o before h l s =
      let chunks = header_chunks board statushdr content_type redir additional in
      let queued = enqueue_all-IsStream chunks o before h s in
      let sent =
        enqueue_chunk-IsStream size true last_header (enqueue_all chunks o)
          (before ++ concat chunks) l queued in
      let empty = sent.1 refl in
      (
        sym (append-nil _)
            ∙ ap
                (λ d.
                  concat (enqueue_chunk size true last_header (enqueue_all chunks o)).sends ++ d)
                (sym empty)
            ∙ sent.0.whole
            ∙ append_assoc before (concat chunks) last_header,
        empty,
      )

concat-links :
    (page : List ℕ × List ℕ) (pages : List (List ℕ × List ℕ))
    → concat (page_links page pages) ≡ join (codes " | ") (page_link page) (map page_link pages)
concat-links page [] = append-nil (page_link page)
concat-links page (next ∷ pages) =
    ap (λ d. page_link page ++ d)
      (append_assoc (codes " | ") (page_link next) _
        ∙ ap (λ d. codes " | " ++ d) (concat-links next pages))

concat-append : (xss yss : List (List ℕ)) → concat (xss ++ yss) ≡ concat xss ++ concat yss
concat-append [] yss = refl
concat-append (xs ∷ xss) yss =
    ap (λ d. xs ++ d) (concat-append xss yss) ∙ sym (append_assoc xs (concat xss) (concat yss))

concat-top_matter :
    (title : List ℕ) (css : List (List ℕ)) (page : List ℕ × List ℕ) (pages : List (List ℕ × List ℕ))
    (mqtt_a : List ℕ)
    → concat (top_matter_chunks title css page pages mqtt_a)
      ≡ concat (top_matter_start title)
        ++ (concat css
            ++ (concat top_matter_head
                ++ (join (codes " | ") (page_link page) (map page_link pages)
                    ++ concat (top_matter_end mqtt_a))))
concat-top_matter title css page pages mqtt_a =
    let links = page_links page pages in
    let rest =
      concat-append links (top_matter_end mqtt_a)
      ∙ ap (λ d. d ++ concat (top_matter_end mqtt_a)) (concat-links page pages) in
    let behind =
      concat-append top_matter_head (links ++ top_matter_end mqtt_a)
      ∙ ap (λ d. concat top_matter_head ++ d) rest in
    let styled =
      concat-append css (top_matter_head ++ (links ++ top_matter_end mqtt_a))
      ∙ ap (λ d. concat css ++ d) behind in
    concat-append (top_matter_start title)
      (css ++ (top_matter_head ++ (links ++ top_matter_end mqtt_a)))
    ∙ ap (λ d. concat (top_matter_start title) ++ d) styled

-- The top of a page is the start of the document with its title and styles, then the links to all pages
-- with a bar between them and the link to the MQTT service, in order and once, if each chunk fits the
-- buffer.
pub generate_top_matter-IsStream :
    (size : ℕ) (title : List ℕ) (css : List (List ℕ)) (page : List ℕ × List ℕ)
    (pages : List (List ℕ × List ℕ)) (mqtt_a : List ℕ) (o : Output) (before : List ℕ)
    → All (λ text. length text ≤ size) (top_matter_chunks title css page pages mqtt_a)
    → IsStream size o before
    → IsStream size (generate_top_matter size title css page pages mqtt_a o) (
        before
        ++ (concat (top_matter_start title)
            ++ (concat css
                ++ (concat top_matter_head
                    ++ (join (codes " | ") (page_link page) (map page_link pages)
                        ++ concat (top_matter_end mqtt_a))))))
unfolding generate_top_matter
generate_top_matter-IsStream size title css page pages mqtt_a o before h s =
    subst
      (λ d. IsStream size (generate_top_matter size title css page pages mqtt_a o) (before ++ d))
      (concat-top_matter title css page pages mqtt_a)
      (enqueue_all-IsStream size (top_matter_chunks title css page pages mqtt_a) o before h s)
