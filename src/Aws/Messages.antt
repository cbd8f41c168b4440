-- ===== src/Aws/Messages.antt =====
-- The tables of internal/aws/errors.go, and the messages with which it explains an error.
use refresh.Prelude.{List, [], ◌∷◌}
use refresh.Text.{Text, txt, concat}
use refresh.Go.{GoError, wrapped, error_text}

unfoldable pub credential_error_patterns : List Text
credential_error_patterns =
    txt "no ec2 imds role found"
    ∷ txt "failed to refresh cached credentials"
    ∷ txt "unable to locate credentials"
    ∷ txt "no credential providers"
    ∷ txt "credentials not found"
    ∷ txt "invalid credentials"
    ∷ txt "sigv4"
    ∷ txt "request signature"
    ∷ txt "the security token included in the request is invalid"
    ∷ txt "the security token included in the request is expired"
    ∷ txt "get identity"
    ∷ txt "get credentials"
    ∷ txt "sso session"
    ∷ txt "token has expired"
    ∷ []

unfoldable pub network_error_patterns : List Text
network_error_patterns =
    txt "no such host"
    ∷ txt "connection refused"
    ∷ txt "connection timeout"
    ∷ txt "network is unreachable"
    ∷ txt "context deadline exceeded"
    ∷ txt "request canceled"
    ∷ txt "dial"
    ∷ txt "timeout"
    ∷ []

unfoldable pub permission_error_patterns : List Text
permission_error_patterns = txt "accessdenied" ∷ txt "forbidden" ∷ txt "not authorized" ∷ []

unfoldable pub credential_error_codes : List Text
credential_error_codes =
    txt "UnrecognizedClientException"
    ∷ txt "InvalidClientTokenId"
    ∷ txt "ExpiredToken"
    ∷ txt "ExpiredTokenException"
    ∷ txt "InvalidSignatureException"
    ∷ txt "SignatureDoesNotMatch"
    ∷ []

unfoldable pub permission_error_codes : List Text
permission_error_codes =
    txt "AccessDeniedException"
    ∷ txt "AccessDenied"
    ∷ txt "UnauthorizedOperation"
    ∷ txt "Forbidden"
    ∷ []

unfoldable pub format_region_error : GoError → Text → GoError
format_region_error e operation =
    wrapped
      (concat (
        txt "AWS region configuration issue while "
        ∷ operation
        ∷ txt ".\n"
        ∷ txt "\n"
        ∷ txt "Please verify:\n"
        ∷ txt "- AWS_DEFAULT_REGION environment variable is set to a valid region\n"
        ∷ txt "- Region in ~/.aws/config matches an AWS region\n"
        ∷ txt "- Common regions: us-east-1, us-west-2, eu-west-1, ap-southeast-1\n"
        ∷ txt "\n"
        ∷ txt "Current error indicates an invalid or unsupported region.\n"
        ∷ txt "\n"
        ∷ txt "Current error: "
        ∷ error_text e
        ∷ []))
      e

unfoldable pub format_credential_error : GoError → GoError
format_credential_error e =
    wrapped
      (concat (
        txt "AWS credentials not configured or invalid.\n"
        ∷ txt "\n"
        ∷ txt "Please set up your AWS credentials using one of these methods:\n"
        ∷ txt "\n"
        ∷ txt "1. AWS CLI configuration:\n"
        ∷ txt "   aws configure\n"
        ∷ txt "\n"
        ∷ txt "2. Environment variables:\n"
        ∷ txt "   export AWS_ACCESS_KEY_ID=\"your-access-key\"\n"
        ∷ txt "   export AWS_SECRET_ACCESS_KEY=\"your-secret-key\"\n"
        ∷ txt "   export AWS_DEFAULT_REGION=\"us-west-2\"\n"
        ∷ txt "\n"
        ∷ txt "3. IAM role (if running on EC2/EKS/Lambda)\n"
        ∷ txt "\n"
        ∷ txt "4. AWS SSO:\n"
        ∷ txt "   aws sso login\n"
        ∷ txt "\n"
        ∷ txt "Current error: "
        ∷ error_text e
        ∷ []))
      e

unfoldable pub format_network_error : GoError → Text → GoError
format_network_error e operation =
    wrapped
      (concat (
        txt "network connectivity issue while "
        ∷ operation
        ∷ txt ".\n"
        ∷ txt "\n"
        ∷ txt "Please check:\n"
        ∷ txt "- Internet connection\n"
        ∷ txt "- AWS service endpoints are accessible\n"
        ∷ txt "- VPC/Security group settings (if running in private network)\n"
        ∷ txt "- Regional service availability\n"
        ∷ txt "\n"
        ∷ txt "Current error: "
        ∷ error_text e
        ∷ []))
      e

unfoldable pub format_permission_error : GoError → Text → GoError
format_permission_error e operation =
    wrapped
      (concat (
        txt "insufficient AWS permissions while "
        ∷ operation
        ∷ txt ".\n"
        ∷ txt "\n"
        ∷ txt "Required permissions for refresh tool:\n"
        ∷ txt "- eks:ListClusters\n"
        ∷ txt "- eks:DescribeCluster\n"
        ∷ txt "- eks:ListNodegroups\n"
        ∷ txt "- eks:DescribeNodegroup\n"
        ∷ txt "- eks:UpdateNodegroupVersion\n"
        ∷ txt "- eks:UpdateClusterVersion (for cluster upgrade)\n"
        ∷ txt "- eks:DescribeUpdate (for cluster upgrade)\n"
        ∷ txt "- eks:DescribeClusterVersions (for cluster upgrade and status support calendar)\n"
        ∷ txt "- eks:ListInsights (for cluster upgrade readiness / upgrade-check)\n"
        ∷ txt "- eks:DescribeInsight (for upgrade-check insight detail)\n"
        ∷ txt
            "- eks:ListAddons / eks:DescribeAddon / eks:DescribeAddonVersions (for addon status / version-skew)\n"
        ∷ txt
            "- ec2:DescribeImages / ec2:DescribeInstances (for AMI staleness and compute detection)\n"
        ∷ txt "- cloudwatch:GetMetricStatistics (for health checks)\n"
        ∷ txt "\n"
        ∷ txt "Current error: "
        ∷ error_text e
        ∷ []))
      e
