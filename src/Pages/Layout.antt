-- ===== src/Pages/Layout.antt =====
-- `layout` of pages.py, which every page goes through, and its `_STYLE`.
use opendss_designer_cloud.Base.{String, [], ◌∷◌, ◌++◌}
use opendss_designer_cloud.Pages.Template.{Template, raw, field}

-- `_STYLE`, line by line
abbrev pub style : Template
style =
    raw "\n"
    ∷ raw
        ":root{color-scheme:light;--ink:#1f2328;--muted:#59636e;--line:#d0d7de;--accent:#0969da;--bg:#f6f8fa}\n"
    ∷ raw
        "*{box-sizing:border-box}body{margin:0;font:15px/1.5 system-ui,-apple-system,Segoe UI,Roboto,sans-serif;color:var(--ink);background:var(--bg)}\n"
    ∷ raw "main{max-width:34rem;margin:6vh auto;padding:0 1rem}\n"
    ∷ raw
        ".card{background:#fff;border:1px solid var(--line);border-radius:10px;padding:1.5rem 1.75rem;margin-bottom:1rem}\n"
    ∷ raw "h1{font-size:1.35rem;margin:0 0 .75rem}h2{font-size:1.05rem;margin:1.25rem 0 .5rem}\n"
    ∷ raw "p{margin:.5rem 0}.muted{color:var(--muted)}small{color:var(--muted)}\n"
    ∷ raw "label{display:block;font-weight:600;margin:.75rem 0 .25rem}\n"
    ∷ raw
        "input[type=email]{width:100%;font:inherit;padding:.55rem .7rem;border:1px solid var(--line);border-radius:6px}\n"
    ∷ raw
        "button,.btn{display:inline-block;font:inherit;font-weight:600;padding:.55rem 1rem;border-radius:6px;border:1px solid var(--line);background:#fff;color:var(--ink);cursor:pointer;text-decoration:none}\n"
    ∷ raw "button.primary{background:var(--accent);border-color:var(--accent);color:#fff}\n"
    ∷ raw ".row{display:flex;gap:.6rem;flex-wrap:wrap;margin-top:.75rem}\n"
    ∷ raw
        ".err{background:#fff1f0;border:1px solid #ffa39e;color:#7a1f1a;padding:.6rem .8rem;border-radius:6px}\n"
    ∷ raw
        ".ok{background:#f0fff4;border:1px solid #9be9a8;color:#1a4d2b;padding:.6rem .8rem;border-radius:6px}\n"
    ∷ raw
        "table{width:100%;border-collapse:collapse;margin:.5rem 0}td,th{text-align:left;padding:.35rem .2rem;border-bottom:1px solid var(--line);vertical-align:top}th{font-weight:600;color:var(--muted);font-size:.9em}\n"
    ∷ raw
        ".meter{height:8px;background:var(--bg);border:1px solid var(--line);border-radius:4px;overflow:hidden}.meter>i{display:block;height:100%;background:var(--accent)}\n"
    ∷ raw
        "footer{color:var(--muted);font-size:.85em;margin:1.5rem 0;text-align:center}footer a{color:inherit}\n"
    ∷ raw "a{color:var(--accent)}\n"
    ∷ raw
        "nav.top{display:flex;align-items:center;justify-content:space-between;margin-bottom:1rem}\n"
    ∷ raw "nav.top .brand{font-weight:700;color:var(--ink);text-decoration:none}\n"
    ∷ raw "nav.top .btn{padding:.4rem .8rem}\n"
    ∷ []

-- The keyword `app_url` of the source is the last argument.
unfoldable pub layout : String → Template → String → Template
layout title body app_url =
    raw "<!doctype html><html lang=\"en\"><head><meta charset=\"utf-8\">\n"
    ∷ raw "<meta name=\"viewport\" content=\"width=device-width,initial-scale=1\"><title>"
    ∷ field title
    ∷ raw " · OpenDSS Designer</title>\n"
    ∷ raw "<style>"
    ∷ (style
        ++ (raw "</style></head><body><main>\n"
            ∷ raw "<nav class=\"top\"><a class=\"brand\" href=\""
            ∷ field app_url
            ∷ raw "\">OpenDSS Designer</a><a class=\"btn\" href=\""
            ∷ field app_url
            ∷ raw "\">&larr; Back to the designer</a></nav>\n"
            ∷ (body
                ++ (raw "\n"
                    ∷ raw "<footer><a href=\""
                    ∷ field app_url
                    ∷ raw
                        "\">Back to the designer</a> · <a href=\"/legal/privacy\">Privacy</a> · <a href=\"/legal/terms\">Terms</a> ·\n"
                    ∷ raw
                        "<a href=\"https://github.com/rsparks3/opendss-designer\">Source</a></footer></main></body></html>"
                    ∷ []))))
