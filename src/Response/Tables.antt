-- ===== src/Response/Tables.antt =====
-- src/web/inc/HttpCodeWithInfo.inc and src/web/inc/HttpContentTypeWithExtension.inc.
use calabash.Base.{ℕ, List, [], ◌∷◌, Bytes, codes}

abbrev pub http_code_with_info : List (ℕ × Bytes)
http_code_with_info =
    (100, codes "Continue")
    ∷ (101, codes "Switching Protocols")
    ∷ (200, codes "OK")
    ∷ (201, codes "Created")
    ∷ (202, codes "Accepted")
    ∷ (203, codes "Non-Authoritative Information")
    ∷ (204, codes "No Content")
    ∷ (205, codes "Reset Content")
    ∷ (206, codes "Partial Content")
    ∷ (300, codes "Multiple Choices")
    ∷ (301, codes "Moved Permanently")
    ∷ (302, codes "Found")
    ∷ (303, codes "See Other")
    ∷ (304, codes "Not Modified")
    ∷ (305, codes "Use Proxy")
    ∷ (306, codes "Unused")
    ∷ (307, codes "Temporary Redirect")
    ∷ (400, codes "Bad Request")
    ∷ (401, codes "Unauthorized")
    ∷ (402, codes "Payment Required")
    ∷ (403, codes "Forbidden")
    ∷ (404, codes "Not Found")
    ∷ (405, codes "Method Not Allowed")
    ∷ (406, codes "Not Acceptable")
    ∷ (407, codes "Proxy Authentication Required")
    ∷ (408, codes "Request Time-out")
    ∷ (409, codes "Conflict")
    ∷ (410, codes "Gone")
    ∷ (411, codes "Length Required")
    ∷ (412, codes "Precondition Failed")
    ∷ (413, codes "Request Entity Too Large")
    ∷ (414, codes "Request-URI Too Large")
    ∷ (415, codes "Unsupported Media Type")
    ∷ (416, codes "Requested range not satisfiable")
    ∷ (417, codes "Expectation Failed")
    ∷ (500, codes "Internal Server Error")
    ∷ (501, codes "Not Implemented")
    ∷ (502, codes "Bad Gateway")
    ∷ (503, codes "Service Unavailable")
    ∷ (504, codes "Gateway Time-out")
    ∷ (505, codes "HTTP Version not supported")
    ∷ []

abbrev pub http_extension_with_content_type : List (Bytes × Bytes)
http_extension_with_content_type =
    (codes ".avi", codes "video/x-msvideo")
    ∷ (codes ".bin", codes "application/octet-stream")
    ∷ (codes ".bmp", codes "image/bmp")
    ∷ (codes ".css", codes "text/css; charset=utf-8")
    ∷ (codes ".csv", codes "text/csv")
    ∷ (codes ".doc", codes "application/msword")
    ∷ (
      codes ".docx",
      codes "application/vnd.openxmlformats-officedocument.wordprocessingml.document",
    )
    ∷ (codes ".epub", codes "application/epub+zip")
    ∷ (codes ".gif", codes "image/gif")
    ∷ (codes ".html", codes "text/html; charset=utf-8")
    ∷ (codes ".ico", codes "image/vnd.microsoft.icon")
    ∷ (codes ".jar", codes "application/java-archive")
    ∷ (codes ".jpeg", codes "image/jpeg")
    ∷ (codes ".jpg", codes "image/jpeg")
    ∷ (codes ".js", codes "text/javascript; charset: utf-8")
    ∷ (codes ".json", codes "application/json; charset=utf-8")
    ∷ (codes ".mp3", codes "audio/mpeg")
    ∷ (codes ".mpeg", codes "video/mpeg")
    ∷ (codes ".png", codes "image/png")
    ∷ (codes ".pdf", codes "application/pdf")
    ∷ (codes ".php", codes "application/x-httpd-php")
    ∷ (codes ".ppt", codes "application/vnd.ms-powerpoint")
    ∷ (
      codes ".pptx",
      codes "application/vnd.openxmlformats-officedocument.presentationml.presentation",
    )
    ∷ (codes ".rar", codes "application/vnd.rar")
    ∷ (codes ".svg", codes "image/svg+xml")
    ∷ (codes ".txt", codes "text/plain")
    ∷ (codes ".wav", codes "audio/wav")
    ∷ (codes ".weba", codes "audio/webm")
    ∷ (codes ".webm", codes "video/webm")
    ∷ (codes ".webp", codes "image/webp")
    ∷ (codes ".xls", codes "application/vnd.ms-excel")
    ∷ (codes ".xlsx", codes "application/vnd.openxmlformats-officedocument.spreadsheetml.sheet")
    ∷ (codes ".xml", codes "application/xml")
    ∷ (codes ".zip", codes "application/zip")
    ∷ (codes ".7z", codes "application/x-7z-compressed")
    ∷ []
